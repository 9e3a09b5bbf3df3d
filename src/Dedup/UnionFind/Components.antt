-- ===== src/Dedup/UnionFind/Components.antt =====
-- The union-find of crates/dedup-engine/src/grouping.rs after all the pairs: its sets are the
-- connected components of the pairs.
use hypr_drive.Prelude.{
  ℕ, zero, suc, ◌+◌, ◌≡◌, refl, sym, ◌∙◌, some, List, [], ◌∷◌, arith, get_elem?, length, inl, inr,
  ◌⊎◌, length-replicate,
}
use hypr_drive.Prelude.HashMap.{All}
use hypr_drive.Dedup.UnionFind.{UnionFind, range, new}
use hypr_drive.Dedup.UnionFind.Root.{Root, top, up, in_range}
use hypr_drive.Dedup.UnionFind.Find.{find_lem, IsValid, get_elem?_in_range}
use hypr_drive.Dedup.UnionFind.Union.{union_lem}
use hypr_drive.Dedup.UnionFind.Connected.{
  union_all, Edge, first, later, Chain, stay, step, Tracks, InRange, Tracks-union, Tracks-find,
}

get_elem?-range : (i n x p : ℕ) → get_elem? (range i n) x ≡ some p → p ≡ i + x
get_elem?-range i zero x p h = cc
get_elem?-range i (suc n) zero p h = ground arith
get_elem?-range i (suc n) (suc x) p h = omega (arith, get_elem?-range (suc i) n x p h)

length-range : (i n : ℕ) → length (range i n) ≡ n
length-range i zero = refl
length-range i (suc n) = omega (arith, length-range (suc i) n)

-- A new union-find is well-formed.
pub new-IsValid : (n : ℕ) → IsValid (new n)
unfolding new
new-IsValid n = record {
  same_size = length-replicate n 0 ∙ sym (length-range 0 n);
  forest = record {
    closed = λ x p e.
        omega (arith, get_elem?-range 0 n x p e, length-range 0 n, in_range (range 0 n) x e);
    climbs = λ x p e n'. absurd (n' (omega (arith, get_elem?-range 0 n x p e)));
  };
}

Root-range : (n : ℕ) {x r : ℕ} → Root (range 0 n) x r → x ≡ r
Root-range n (top x e) = refl
Root-range n (up x p r e m h) = absurd (m (omega (arith, get_elem?-range 0 n x p e)))

pub Chain-nil : {a b : ℕ} → Chain [] a b → a ≡ b
Chain-nil (stay b e) = e
Chain-nil (step b c h (inl e)) = elim e [ ]
Chain-nil (step b c h (inr e)) = elim e [ ]

-- In a new union-find every element is alone.
pub new-Tracks : (n : ℕ) → Tracks n [] (new n)
unfolding new
new-Tracks n = record {
  valid = unfold new in new-IsValid n;
  size = length-range 0 n;
  sets = λ a b ba bb. (
    λ (r, h, k). stay b (Root-range n h ∙ sym (Root-range n k)),
    λ h.
        let (p, e) = get_elem?_in_range (range 0 n) a (rw length-range ba) in
        let self : get_elem? (range 0 n) a ≡ some a = ground (arith, get_elem?-range 0 n a p e) in
        (a, top a self, rw (← Chain-nil h) (top a self)),
  );
}

abbrev rev_onto : List (ℕ × ℕ) → List (ℕ × ℕ) → List (ℕ × ℕ)
rev_onto [] before = before
rev_onto (e ∷ pairs) before = rev_onto pairs (e ∷ before)

Tracks-union_all :
    (n : ℕ) (pairs before : List (ℕ × ℕ)) (uf : UnionFind)
    → All (InRange n) pairs
    → All (InRange n) before
    → Tracks n before uf
    → (uf' : UnionFind) × (union_all uf pairs ≡ some uf') × Tracks n (rev_onto pairs before) uf'
unfolding union_all
Tracks-union_all n [] before uf b c t = (uf, refl, t)
Tracks-union_all n ((x, y) ∷ pairs) before uf b c t =
    let (next, e, u) = union_lem uf x y t.valid (rw t.size b.0.0) (rw t.size b.0.1) in
    let joined = Tracks-union x y (b.0, c) t u in
    let (answer, f, found) = find_lem next x joined.valid (rw joined.size b.0.0) in
    let (uf', e', t') =
      Tracks-union_all n pairs ((x, y) ∷ before) answer.1 b.1 (b.0, c)
        (Tracks-find x joined found) in
    (uf', rw (e, f) e', t')

module _ {a b : ℕ} where
  Edge-split :
      (p : ℕ × ℕ) (pairs before : List (ℕ × ℕ))
      → Edge a b (p ∷ before)
      → Edge a b (p ∷ pairs) ⊎ Edge a b before
  Edge-split p pairs before (first x y _ q r) = inl (first x y pairs q r)
  Edge-split p pairs before (later _ _ k) = inr k

  Edge-rev :
      (pairs before : List (ℕ × ℕ))
      → Edge a b (rev_onto pairs before)
      → Edge a b pairs ⊎ Edge a b before
  Edge-rev [] before e = inr e
  Edge-rev (p ∷ pairs) before e = elim (Edge-rev pairs (p ∷ before) e) [
    | inl k ↦ inl (later p pairs k)
    | inr k ↦ Edge-split p pairs before k
  ]

  Edge-later : (pairs before : List (ℕ × ℕ)) → Edge a b before → Edge a b (rev_onto pairs before)
  Edge-later [] before e = e
  Edge-later (p ∷ pairs) before e = Edge-later pairs (p ∷ before) (later p before e)

  Edge-rev_back : (pairs before : List (ℕ × ℕ)) → Edge a b pairs → Edge a b (rev_onto pairs before)
  Edge-rev_back _ before (first x y pairs q r) =
      Edge-later pairs ((x, y) ∷ before) (first x y before q r)
  Edge-rev_back _ before (later p pairs k) = Edge-rev_back pairs (p ∷ before) k

Chain-map :
    (ps qs : List (ℕ × ℕ))
    → ((a b : ℕ) → Edge a b ps → Edge a b qs)
    → (a b : ℕ) → Chain ps a b
    → Chain qs a b
Chain-map ps qs f a b (stay _ e) = stay b e
Chain-map ps qs f a c (step b _ h (inl e)) = step b c (Chain-map ps qs f a b h) (inl (f b c e))
Chain-map ps qs f a c (step b _ h (inr e)) = step b c (Chain-map ps qs f a b h) (inr (f c b e))

Edge-onto_nil : (pairs : List (ℕ × ℕ)) (a b : ℕ) → Edge a b (rev_onto pairs []) → Edge a b pairs
Edge-onto_nil pairs a b e = elim (Edge-rev pairs [] e) [ inl k ↦ k | inr k ↦ elim k [ ] ]

-- Joining all the pairs, which must be in range, ends without a panic, and leaves a well-formed
-- union-find whose sets are the connected components of the graph of the pairs: two elements are in
-- one set exactly when a chain of pairs leads from one to the other.
pub union_all-components :
    (n : ℕ) (pairs : List (ℕ × ℕ))
    → All (InRange n) pairs
    → (uf : UnionFind) × (union_all (new n) pairs ≡ some uf) × Tracks n pairs uf
union_all-components n pairs b =
    let (uf, e, t) = Tracks-union_all n pairs [] (new n) b tt (new-Tracks n) in
    (
      uf,
      e,
      record {
        valid = t.valid;
        size = t.size;
        sets = λ x y bx by. (
          λ h.
              Chain-map (rev_onto pairs []) pairs (Edge-onto_nil pairs) x y
                ((t.sets x y bx by).0 h),
          λ h.
              (t.sets x y bx by).1
                (Chain-map pairs (rev_onto pairs []) (λ c d k. Edge-rev_back pairs [] k) x y h),
        );
      },
    )
