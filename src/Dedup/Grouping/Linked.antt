-- ===== src/Dedup/Grouping/Linked.antt =====
-- The groups of `group_matches` in crates/dedup-engine/src/grouping.rs against the graph of the
-- pairs.
use mathlib.Core.List.Permᴰ
use mathlib.Core.Option.{some-injective}
use hypr_drive.Prelude.{
  ℕ, zero, suc, ◌+◌, ◌<◌, ◌≤◌, ◌≡◌, ◌≢◌, refl, sym, ap, ◌∙◌, ◌↔◌, ◌⊎◌, Option, some, none, List, [],
  ◌∷◌, ◌++◌, arith, length, ℕ_discrete, inl, inr,
}
use hypr_drive.Prelude.HashMap.{Visit, All, All-mono, get, IsMap}
use hypr_drive.Prelude.Members.{
  In, here, there, In-cons, Before, first, later, Before-cons, In-Permᴰ,
}
use hypr_drive.Dedup.UnionFind.{UnionFind, new, range}
use hypr_drive.Dedup.UnionFind.Root.{Root, Root-unique}
use hypr_drive.Dedup.UnionFind.Connected.{
  union_all, Chain, stay, step, Edge, Tracks, InRange, Edge-InRange,
}
use hypr_drive.Dedup.UnionFind.Components.{union_all-components, Chain-nil}
use hypr_drive.Dedup.Scanner.{Groups, large_groups}
use hypr_drive.Dedup.Scanner.Stages.{
  with_key, Before-with_key, Before-hash_all, at_least_two-Before, In-large_groups, In-get, get-In,
}
use hypr_drive.Dedup.Grouping.{group_members, key_roots, collect_members}
use hypr_drive.Dedup.Grouping.Roots.{
  root_of, root_of-Root, Keeps-refl, entered, joined, key_roots-entered, collect_members-joined,
}
use hypr_drive.Dedup.Grouping.Classes.{
  rooted, add_to, get-joined, entered-IsEmpty, Edge-entered, entered-IsMap, joined-IsMap,
}

In-range : (j a n : ℕ) → In j (range a n) ↔ (a ≤ j) × (j < a + n)
In-range j a zero = (λ h. elim h [ ], λ (l, b). absurd (omega arith))
In-range j a (suc n) =
    let (to, from) = In-range j (suc a) n in
    (
      λ h. elim (In-cons h) [
        | inl e ↦ (omega arith, omega arith)
        | inr i ↦ let (l, b) = to i in (omega arith, omega arith)
      ],
      λ (l, b). elim (ℕ_discrete j a) [
        | yes p ↦ here a (range (suc a) n) p
        | no p ↦ there a (range (suc a) n) (from (omega arith, omega arith))
      ],
    )

Before-range : (i j a n : ℕ) → Before i j (range a n) ↔ (a ≤ i) × (i < j) × (j < a + n)
Before-range i j a zero = (λ h. elim h [ ], λ (l, b, c). absurd (omega arith))
Before-range i j a (suc n) =
    let (to, from) = Before-range i j (suc a) n in
    (
      λ h. elim (Before-cons h) [
        | inl (e, k) ↦
            let (l, b) = (In-range j (suc a) n).0 k in (omega arith, omega arith, omega arith)
        | inr k ↦ let (l, b, c) = to k in (omega arith, omega arith, omega arith)
      ],
      λ (l, b, c). elim (ℕ_discrete i a) [
        | yes p ↦ first a (range (suc a) n) p ((In-range j (suc a) n).1 (omega arith, omega arith))
        | no p ↦ later a (range (suc a) n) (from (omega arith, b, omega arith))
      ],
    )

-- A chain that leads somewhere else passes the first element of a pair.
Chain-edge_from :
    (pairs : List (ℕ × ℕ)) (i j : ℕ)
    → Chain pairs i j
    → i ≢ j
    → (a : ℕ) × (b : ℕ) × Edge a b pairs × Chain pairs i a
Chain-edge_from pairs i j (stay _ e) n = absurd (n e)
Chain-edge_from pairs i j (step b _ h (inl e)) n = (b, j, e, h)
Chain-edge_from pairs i j (step b _ h (inr e)) n = (j, b, e, step b j h (inr e))

module _ (uf : UnionFind) (n : ℕ) (pairs : List (ℕ × ℕ)) where
  abbrev keyed : Groups
  keyed = entered uf pairs []

  abbrev components : Groups
  components = joined uf (range 0 n) keyed

  abbrev class : ℕ → List ℕ
  class k = with_key k (rooted uf (range 0 n))

  components-IsMap : IsMap ℕ_discrete components
  components-IsMap = joined-IsMap uf (range 0 n) keyed (entered-IsMap uf pairs [] tt)

  In-components : (k : ℕ) (h : List ℕ) → In (k, h) components → h ≡ class k
  In-components k h i =
      found (get ℕ_discrete k keyed) (unfold get in entered-IsEmpty uf k pairs [] (inl refl))
        (sym (In-get k h components components-IsMap i) ∙ get-joined uf k (range 0 n) keyed)
    where
      found :
          (o : Option (List ℕ))
          → ((o ≡ none) ⊎ (o ≡ some []))
          → some h ≡ add_to (class k) o
          → h ≡ class k
      found none e q = cc
      found (some m) (inl e) q = cc
      found (some m) (inr e) q =
          some-injective h (class k) (q ∙ ap (λ m. some (m ++ class k)) (some-injective m [] e))

  components-In : (k : ℕ) → get ℕ_discrete k keyed ≡ some [] → In (k, class k) components
  components-In k e =
      get-In k (class k) components (get-joined uf k (range 0 n) keyed ∙ ap (add_to (class k)) e)

  Before-class :
      (i j k : ℕ)
      → Before i j (class k) ↔ (i < j) × (j < n) × (root_of uf i ≡ k) × (root_of uf j ≡ k)
  Before-class i j k = (
    λ b.
        let (c, e, f) =
          (Before-hash_all (λ x. some (root_of uf x)) i j k (range 0 n)).0
            ((Before-with_key k i j (rooted uf (range 0 n))).0 b) in
        let (l, m, o) = (Before-range i j 0 n).0 c in
        (m, omega arith, some-injective _ _ e, some-injective _ _ f),
    λ (m, o, e, f). (Before-with_key k i j (rooted uf (range 0 n))).1 (
        (Before-hash_all (λ x. some (root_of uf x)) i j k (range 0 n)).1
          ((Before-range i j 0 n).1 (omega arith, m, omega arith), ap some e, ap some f)),
  )

module _ (uf : UnionFind) (n : ℕ) (pairs : List (ℕ × ℕ)) (t : Tracks n pairs uf) where
  root-Root : (x : ℕ) → x < n → Root uf.parent x (root_of uf x)
  root-Root x b = root_of-Root uf x t.valid (rw t.size b)

  same_root : (i j : ℕ) → i < n → j < n → Chain pairs i j → root_of uf i ≡ root_of uf j
  same_root i j bi bj c =
      let (r, k, l) = (t.sets i j bi bj).1 c in
      Root-unique (root-Root i bi) k ∙ Root-unique l (root-Root j bj)

  linked : (i j : ℕ) → i < n → j < n → root_of uf i ≡ root_of uf j → Chain pairs i j
  linked i j bi bj e = (t.sets i j bi bj).0 (root_of uf i, root-Root i bi, rw e (root-Root j bj))

  -- The class of two elements that a chain joins is among the groups.
  class-entered :
      (i j : ℕ)
      → All (InRange n) pairs
      → i < n
      → j < n
      → i ≢ j
      → Chain pairs i j
      → get ℕ_discrete (root_of uf i) (keyed uf n pairs) ≡ some []
  class-entered i j bounds bi bj d c =
      let (a, b, e, h) = Chain-edge_from pairs i j c d in
      let (ba, _) = Edge-InRange n bounds e in
      rw (same_root i a bi ba h) (Edge-entered uf a b pairs [] e (unfold get in inl refl))

  group_iff :
      (vis : Visit (ℕ × List ℕ)) (i j : ℕ)
      → All (InRange n) pairs
      → ((g : List ℕ) × In g (large_groups (vis.order (components uf n pairs))) × Before i j g)
        ↔ (i < j) × (j < n) × Chain pairs i j
  group_iff vis i j bounds = (
    λ (g, h, b).
        let (k, m, _) = (In-large_groups g (vis.order (components uf n pairs))).0 h in
        let q = In-components uf n pairs k g (In-Permᴰ (vis.once _) m) in
        let (l, o, e, f) = (Before-class uf n pairs i j k).0 (rw (← q) b) in
        (l, o, linked i j (omega arith) o (e ∙ sym f)),
    λ (l, o, c).
        let bi : i < n = omega arith in
        let e = same_root i j bi o c in
        let b = (Before-class uf n pairs i j (root_of uf i)).1 (l, o, refl, sym e) in
        let m =
          components-In uf n pairs (root_of uf i)
            (class-entered i j bounds bi o (λ p. absurd (omega arith)) c) in
        (
          class uf n pairs (root_of uf i),
          (In-large_groups (class uf n pairs (root_of uf i)) (vis.order (components uf n pairs))).1
              (root_of uf i, In-Permᴰ (Permᴰ.symm (vis.once _)) m, at_least_two-Before b),
          b,
        ),
  )

range-below : (a m n : ℕ) → a + m ≤ n → All (λ x. x < n) (range a m)
range-below a zero n h = tt
range-below a (suc m) n h = (omega arith, range-below (suc a) m n (omega arith))

-- Two files are in one group exactly when a chain of matches leads from one to the other: for pairs
-- in range the grouping ends without a panic, in whatever order its map is visited.
pub group_members-Chain :
    (vis : Visit (ℕ × List ℕ)) (n : ℕ) (pairs : List (ℕ × ℕ))
    → All (InRange n) pairs
    → (groups : List (List ℕ)) × (group_members vis n pairs ≡ some groups)
      × ((i j : ℕ)
          → ((g : List ℕ) × In g groups × Before i j g) ↔ (i < j) × (j < n) × Chain pairs i j)
unfolding group_members
group_members-Chain vis n [] bounds = (
  [],
  refl,
  λ i j. (λ (g, h, b). elim h [ ], λ (l, b, c). let e = Chain-nil c in absurd (omega arith)),
)
group_members-Chain vis n (pair ∷ pairs) bounds =
    let (uf, e, t) = union_all-components n (pair ∷ pairs) bounds in
    let firsts : All (λ e. e.0 < length uf.parent) (pair ∷ pairs) =
      All-mono (λ e b. rw t.size b.0) (pair ∷ pairs) bounds in
    let (next, f, k) =
      key_roots-entered uf t.valid (pair ∷ pairs) uf [] (Keeps-refl uf t.valid) firsts in
    let below : All (λ x. x < length uf.parent) (range 0 n) =
      range-below 0 n (length uf.parent) (omega (arith, t.size)) in
    let q =
      collect_members-joined uf t.valid (range 0 n) next (keyed uf n (pair ∷ pairs)) k below in
    (
      large_groups (vis.order (components uf n (pair ∷ pairs))),
      grouped uf next e f q,
      λ i j. group_iff uf n (pair ∷ pairs) t vis i j bounds,
    )
  where
    grouped :
        (uf next : UnionFind)
        → union_all (new n) (pair ∷ pairs) ≡ some uf
        → key_roots uf (pair ∷ pairs) [] ≡ some (next, keyed uf n (pair ∷ pairs))
        → collect_members next (range 0 n) (keyed uf n (pair ∷ pairs))
          ≡ some (components uf n (pair ∷ pairs))
        → group_members vis n (pair ∷ pairs)
          ≡ some (large_groups (vis.order (components uf n (pair ∷ pairs))))
    grouped uf next e f q = rw (e, f, q) refl
