-- ===== src/Dedup/UnionFind/Find.antt =====
-- `find` of crates/dedup-engine/src/grouping.rs: on a well-formed union-find it ends, returns the
-- root, and changes no root.
use hypr_drive.Prelude.{
  ℕ, zero, suc, ◌+◌, ◌≤◌, ◌<◌, ◌≡◌, ◌≢◌, refl, sym, ◌∙◌, some, List, [], ◌∷◌, arith, get_elem?,
  get_or, set, length, length-set, get_elem?-set_self, get_elem?-set_ne, inl, inr, ◌⊎◌, ℕ_discrete,
}
use hypr_drive.Dedup.UnionFind.{UnionFind, largest, climb, find_root, compress, find}
use hypr_drive.Dedup.UnionFind.Root.{Root, top, up, in_range, Root-top, Root-compress}

-- The parents stay in range, and have higher ranks than their children.
pub record IsForest (rank parent : List ℕ) : Type 0 where
  pub closed : (x p : ℕ) → get_elem? parent x ≡ some p → p < length parent
  pub climbs : (x p : ℕ) → get_elem? parent x ≡ some p → p ≢ x → get_or rank x 0 < get_or rank p 0

pub record IsValid (uf : UnionFind) : Type 0 where
  pub same_size : length uf.rank ≡ length uf.parent
  pub forest : IsForest uf.rank uf.parent

pub get_or-le-largest : (rs : List ℕ) (i : ℕ) → get_or rs i 0 ≤ largest rs
get_or-le-largest [] i = omega arith
get_or-le-largest (r ∷ rs) zero = omega arith
get_or-le-largest (r ∷ rs) (suc i) = omega (arith, get_or-le-largest rs i)

pub get_elem?_in_range : (xs : List ℕ) (i : ℕ) → i < length xs → (v : ℕ) × (get_elem? xs i ≡ some v)
get_elem?_in_range [] i h = absurd (omega arith)
get_elem?_in_range (x ∷ xs) zero h = (x, refl)
get_elem?_in_range (x ∷ xs) (suc i) h = get_elem?_in_range xs i (omega arith)

-- What can be read after a write.
pub get_elem?-set_inv :
    (xs : List ℕ) (i j v w : ℕ)
    → get_elem? (set xs i v) j ≡ some w
    → ((i ≡ j) × (w ≡ v)) ⊎ (get_elem? xs j ≡ some w)
get_elem?-set_inv xs i j v w h = elim (ℕ_discrete i j) [
  | yes e ↦
      let bound : j < length xs = rw (← length-set xs i v) (in_range (set xs i v) j h) in
      let written : get_elem? (set xs i v) j ≡ some v = rw e (get_elem?-set_self xs j v bound) in
      inl (e, cc)
  | no n ↦ inr (sym (get_elem?-set_ne xs v n) ∙ h)
]

pub Root-in_range :
    {parent : List ℕ} {x r : ℕ} → Root parent x r → (x < length parent) × (r < length parent)
Root-in_range (top x e) = (in_range _ x e, in_range _ x e)
Root-in_range (up x p r e n h) = (in_range _ x e, (Root-in_range h).1)

module _ {rank parent : List ℕ} where
  pub IsForest-set :
      (a b : ℕ)
      → IsForest rank parent
      → b < length parent
      → (a ≢ b → get_or rank a 0 < get_or rank b 0)
      → IsForest rank (set parent a b)
  IsForest-set a b f bound higher = record {
    closed = λ x p e.
        rw length-set (by_write x p e (p < length parent) (λ q r. rw r bound) (f.closed x p));
    climbs = λ x p e n.
        by_write x p e (get_or rank x 0 < get_or rank p 0)
          (λ q r. rw (r, ← q) (higher (λ z. n (r ∙ sym z ∙ q)))) (λ g. f.climbs x p g n);
  }
    where
      by_write :
          (x p : ℕ)
          → get_elem? (set parent a b) x ≡ some p
          → (P : Type 0) → (a ≡ x → p ≡ b → P)
          → (get_elem? parent x ≡ some p → P)
          → P
      by_write x p e P l r = elim (get_elem?-set_inv parent a x b p e) [
        | inl (q, s) ↦ l q s
        | inr g ↦ r g
      ]

  module _ (f : IsForest rank parent) where
    pub Root-climbs : {x r : ℕ} → Root parent x r → (x ≡ r) ⊎ (get_or rank x 0 < get_or rank r 0)
    Root-climbs (top x e) = inl refl
    Root-climbs (up x p r e n h) = elim (Root-climbs h) [
      | inl q ↦ inr (rw (← q) (f.climbs x p e n))
      | inr l ↦ inr (omega (arith, f.climbs x p e n))
    ]

    pub find_root_lem :
        (fuel x : ℕ)
        → x < length parent
        → largest rank < get_or rank x 0 + fuel
        → (r : ℕ) × (find_root fuel parent x ≡ some r) × Root parent x r
    unfolding find_root
    find_root_lem zero x b h = absurd (omega (arith, get_or-le-largest rank x))
    find_root_lem (suc fuel) x b h =
        let (p, e) = get_elem?_in_range parent x b in
        elim (ℕ_discrete p x) [
          | yes q ↦ (x, ground arith, top x (rw q at e))
          | no n ↦
              let (r, found, root) =
                find_root_lem fuel p (f.closed x p e) (omega (arith, f.climbs x p e n)) in
              (r, ground arith, up x p r e n root)
        ]

below :
    {rank parent : List ℕ} {x r : ℕ}
    → IsForest rank parent
    → Root parent x r
    → x ≢ r
    → get_or rank x 0 < get_or rank r 0
below f h n = elim (Root-climbs f h) [ inl e ↦ absurd (n e) | inr l ↦ l ]

-- What compressing a path keeps.
pub record Compressed (rank parent parent' : List ℕ) : Type 0 where
  pub forest : IsForest rank parent'
  pub same_length : length parent' ≡ length parent
  pub same_roots : (y s : ℕ) → Root parent y s → Root parent' y s

pub compress_lem :
    (rank : List ℕ) (fuel : ℕ) (parent : List ℕ) (r c : ℕ)
    → IsForest rank parent
    → Root parent c r
    → largest rank < get_or rank c 0 + fuel
    → (parent' : List ℕ) × (compress fuel parent r c ≡ some parent')
      × Compressed rank parent parent'
unfolding compress
compress_lem rank zero parent r c f root h = absurd (omega (arith, get_or-le-largest rank c))
compress_lem rank (suc fuel) parent r c f (top _ e) h =
    (parent, ground arith, record { forest = f; same_length = refl; same_roots = λ y s k. k })
compress_lem rank (suc fuel) parent r c f (up _ p _ e n root) h =
    let whole = up c p r e n root in
    let apart : c ≢ r = λ z. n (cc (Root-top root)) in
    let (parent', done, k) =
      compress_lem rank fuel (set parent c r) r p
        (IsForest-set c r f (Root-in_range root).1 (λ _. below f whole apart))
        (Root-compress parent c r whole root) (omega (arith, f.climbs c p e n)) in
    (
      parent',
      ground arith,
      record {
        forest = k.forest;
        same_length = k.same_length ∙ length-set parent c r;
        same_roots = λ y s t. k.same_roots y s (Root-compress parent c r whole t);
      },
    )

-- What `find` returns on a well-formed union-find.
pub record Found (uf : UnionFind) (x : ℕ) (answer : ℕ × UnionFind) : Type 0 where
  pub root : Root uf.parent x answer.0
  pub valid : IsValid answer.1
  pub same_length : length answer.1.parent ≡ length uf.parent
  pub same_rank : answer.1.rank ≡ uf.rank
  pub same_roots : (y s : ℕ) → Root uf.parent y s → Root answer.1.parent y s

-- On a well-formed union-find, `find` of an element ends without a panic and returns the root of
-- the element; path compression keeps the structure well-formed and every root as it was.
pub find_lem :
    (uf : UnionFind) (x : ℕ)
    → IsValid uf
    → x < length uf.parent
    → (answer : ℕ × UnionFind) × (find uf x ≡ some answer) × Found uf x answer
unfolding find climb
find_lem uf x v b =
    let (r, found, root) = find_root_lem v.forest (climb uf) x b (omega arith) in
    let (parent', done, k) =
      compress_lem uf.rank (climb uf) uf.parent r x v.forest root (omega arith) in
    (
      (r, record uf { parent = parent' }),
      ground arith,
      record {
        root = root;
        valid = record { same_size = v.same_size ∙ sym k.same_length; forest = k.forest };
        same_length = k.same_length;
        same_rank = refl;
        same_roots = k.same_roots;
      },
    )
