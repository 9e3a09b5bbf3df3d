-- ===== src/Dedup/UnionFind/Link.antt =====
-- `link` of two roots in crates/dedup-engine/src/grouping.rs: what becomes of the other roots.
use hypr_drive.Prelude.{
  ℕ, zero, suc, ◌+◌, ◌≤◌, ◌<◌, ◌≡◌, ◌≢◌, refl, sym, ap, ◌∙◌, some, List, [], ◌∷◌, arith, get_elem?,
  get_or, set, length, length-set, inl, inr, ℕ_discrete, compare, Ordering,
}
use hypr_drive.Dedup.UnionFind.{UnionFind, link, union_roots}
use hypr_drive.Dedup.UnionFind.Root.{Root, in_range, Root-link, moved_root}
use hypr_drive.Dedup.UnionFind.Find.{
  IsForest, IsValid, IsForest-set, get_elem?_in_range, get_elem?-set_inv,
}

get_or_of : (xs : List ℕ) (i v : ℕ) → get_elem? xs i ≡ some v → get_or xs i 0 ≡ v
get_or_of [] i v h = cc
get_or_of (x ∷ xs) zero v h = cc
get_or_of (x ∷ xs) (suc i) v h = get_or_of xs i v h

get_or-set_ne : (xs : List ℕ) (i j v : ℕ) → i ≢ j → get_or (set xs i v) j 0 ≡ get_or xs j 0
get_or-set_ne [] i j v h = refl
get_or-set_ne (x ∷ xs) zero zero v h = absurd (h refl)
get_or-set_ne (x ∷ xs) zero (suc j) v h = refl
get_or-set_ne (x ∷ xs) (suc i) zero v h = refl
get_or-set_ne (x ∷ xs) (suc i) (suc j) v h = get_or-set_ne xs i j v (λ e. h (ap suc e))

get_or-set_self : (xs : List ℕ) (i v : ℕ) → i < length xs → get_or (set xs i v) i 0 ≡ v
get_or-set_self [] i v h = absurd (omega arith)
get_or-set_self (x ∷ xs) zero v h = refl
get_or-set_self (x ∷ xs) (suc i) v h = get_or-set_self xs i v (omega arith)

-- `old`, a root, has been pointed to `new`, another root.
pub record Linked (uf uf' : UnionFind) (old new : ℕ) : Type 0 where
  pub valid : IsValid uf'
  pub same_length : length uf'.parent ≡ length uf.parent
  pub moved : (y s : ℕ) → Root uf.parent y s → Root uf'.parent y (moved_root old new s)

module _ (uf : UnionFind) (v : IsValid uf) (rx ry : ℕ) (tx : get_elem? uf.parent rx ≡ some rx)
    (ty : get_elem? uf.parent ry ≡ some ry) (apart : rx ≢ ry) where
  Linked-lt :
      get_or uf.rank rx 0 < get_or uf.rank ry 0
      → Linked uf (record uf { parent = set uf.parent rx ry }) rx ry
  Linked-lt l = record {
    valid = record {
      same_size = v.same_size ∙ sym (length-set uf.parent rx ry);
      forest = IsForest-set rx ry v.forest (in_range uf.parent ry ty) (λ _. l);
    };
    same_length = length-set uf.parent rx ry;
    moved = λ y s. Root-link uf.parent rx ry tx ty apart;
  }

  raised : List ℕ
  raised = set uf.rank rx (get_or uf.rank rx 0 + 1)

  raised_ne : (x : ℕ) → rx ≢ x → get_or raised x 0 ≡ get_or uf.rank x 0
  unfolding raised
  raised_ne x n = get_or-set_ne uf.rank rx x _ n

  raised_self : get_or raised rx 0 ≡ get_or uf.rank rx 0 + 1
  unfolding raised
  raised_self = get_or-set_self uf.rank rx _ (rw v.same_size (in_range uf.parent rx tx))

  raised-le : (x : ℕ) → get_or uf.rank x 0 ≤ get_or raised x 0
  raised-le x = elim (ℕ_discrete rx x) [
    | yes e ↦ rw (← e) (omega (arith, raised_self))
    | no n ↦ omega (arith, raised_ne x n)
  ]

  raised-IsForest :
      get_or uf.rank rx 0 ≡ get_or uf.rank ry 0 → IsForest raised (set uf.parent ry rx)
  raised-IsForest l = record {
    closed = λ x p e. elim (get_elem?-set_inv uf.parent ry x rx p e) [
      | inl (q, s) ↦ rw (length-set, s) (in_range uf.parent rx tx)
      | inr g ↦ rw length-set (v.forest.closed x p g)
    ];
    climbs = λ x p e n. elim (get_elem?-set_inv uf.parent ry x rx p e) [
      | inl (q, s) ↦ rw (s, ← q) (omega (arith, raised_self, raised_ne ry apart))
      | inr g ↦ omega (
        arith,
        v.forest.climbs x p g n,
        raised_ne x (λ z. n (cc (ap (get_elem? uf.parent) z))),
        raised-le p,
      )
    ];
  }

  Linked-eq :
      get_or uf.rank rx 0 ≡ get_or uf.rank ry 0
      → Linked uf (record { parent = set uf.parent ry rx; rank = raised }) ry rx
  unfolding raised
  Linked-eq l = record {
    valid = record {
      same_size = length-set uf.rank rx _ ∙ v.same_size ∙ sym (length-set uf.parent ry rx);
      forest = raised-IsForest l;
    };
    same_length = length-set uf.parent ry rx;
    moved = λ y s. Root-link uf.parent ry rx ty tx (λ z. apart (sym z));
  }

-- The three outcomes of joining two roots.
pub data Joined (uf uf' : UnionFind) (rx ry : ℕ) : Type 0 where
  equal : rx ≡ ry → uf' ≡ uf → Joined uf uf' rx ry
  forward : Linked uf uf' rx ry → Joined uf uf' rx ry
  backward : Linked uf uf' ry rx → Joined uf uf' rx ry

module _ (uf : UnionFind) (v : IsValid uf) (rx ry : ℕ) (tx : get_elem? uf.parent rx ≡ some rx)
    (ty : get_elem? uf.parent ry ≡ some ry) where
  link_lem :
      rx ≢ ry
      → (a b : ℕ) → get_elem? uf.rank rx ≡ some a
      → get_elem? uf.rank ry ≡ some b
      → (o : Ordering) → compare a b ≡ o
      → Joined uf (link uf rx ry a o) rx ry
  unfolding link raised
  link_lem apart a b ea eb Ordering.lt e = forward (
      Linked-lt uf v rx ry tx ty apart
        (ground (arith, get_or_of uf.rank rx a ea, get_or_of uf.rank ry b eb)))
  link_lem apart a b ea eb Ordering.gt e = backward (
      Linked-lt uf v ry rx ty tx (λ z. apart (sym z))
        (ground (arith, get_or_of uf.rank rx a ea, get_or_of uf.rank ry b eb)))
  link_lem apart a b ea eb Ordering.eq e = backward (
      rw (← get_or_of uf.rank rx a ea) (
        Linked-eq uf v rx ry tx ty apart
          (ground (arith, get_or_of uf.rank rx a ea, get_or_of uf.rank ry b eb))))

  pub union_roots_lem : (uf' : UnionFind) × (union_roots uf rx ry ≡ some uf') × Joined uf uf' rx ry
  unfolding union_roots
  union_roots_lem = elim (ℕ_discrete rx ry) [
    | yes e ↦ (uf, ground arith, equal e refl)
    | no n ↦
        let (a, ea) = get_elem?_in_range uf.rank rx (rw v.same_size (in_range uf.parent rx tx)) in
        let (b, eb) = get_elem?_in_range uf.rank ry (rw v.same_size (in_range uf.parent ry ty)) in
        (link uf rx ry a (compare a b), ground arith, link_lem n a b ea eb (compare a b) refl)
  ]
