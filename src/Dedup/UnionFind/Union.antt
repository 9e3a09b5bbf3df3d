-- ===== src/Dedup/UnionFind/Union.antt =====
-- `union` of crates/dedup-engine/src/grouping.rs: it joins two sets and no others.
use mathlib.Core.Logic.{if_pos}
use hypr_drive.Prelude.{
  ℕ, suc, ◌<◌, ◌≡◌, ◌↔◌, refl, ◌∙◌, some, arith, get_elem?, length, inl, inr, ◌⊎◌, ℕ_discrete,
}
use hypr_drive.Dedup.UnionFind.{UnionFind, largest, union}
use hypr_drive.Dedup.UnionFind.Root.{Root, Root-top, Root-unique, moved_root}
use hypr_drive.Dedup.UnionFind.Link.{Linked, Joined, equal, forward, backward, union_roots_lem}
use hypr_drive.Dedup.UnionFind.Find.{IsValid, find_root_lem, find_lem}

-- Two elements are in one set.
abbrev pub Same : UnionFind → ℕ → ℕ → Type 0
Same uf a b = (r : ℕ) × Root uf.parent a r × Root uf.parent b r

-- Every element of a well-formed union-find has a root.
pub root_exists :
    (uf : UnionFind) (x : ℕ) → IsValid uf → x < length uf.parent → (r : ℕ) × Root uf.parent x r
root_exists uf x v b =
    let (r, _, root) = find_root_lem v.forest (suc (largest uf.rank)) x b (omega arith) in (r, root)

-- What joining the sets of two roots adds.
abbrev Crosses : UnionFind → ℕ → ℕ → ℕ → ℕ → Type 0
Crosses uf rx ry a b =
    (Root uf.parent a rx × Root uf.parent b ry) ⊎ (Root uf.parent a ry × Root uf.parent b rx)

moved_old : (old new : ℕ) → moved_root old new old ≡ new
moved_old old new = if_pos (ℕ_discrete old old) refl _ _

moved_new : (old new : ℕ) → moved_root old new new ≡ new
moved_new old new = ground arith

module _ {uf uf' : UnionFind} (v : IsValid uf) (old new : ℕ) (l : Linked uf uf' old new)
    (a b : ℕ) where
  Same-of_roots :
      {ra rb : ℕ}
      → Root uf.parent a ra
      → Root uf.parent b rb
      → moved_root old new ra ≡ moved_root old new rb
      → Same uf a b ⊎ Crosses uf old new a b
  Same-of_roots {ra} {rb} p q e = elim (ℕ_discrete ra old) [
    | yes x ↦ elim (ℕ_discrete rb old) [
      | yes y ↦ inl (old, (rw x at p), (rw y at q))
      | no n ↦ let f : rb ≡ new = ground arith in inr (inl ((rw x at p), (rw f at q)))
    ]
    | no n ↦ elim (ℕ_discrete rb old) [
      | yes y ↦ let f : ra ≡ new = ground arith in inr (inr ((rw f at p), (rw y at q)))
      | no m ↦ let f : ra ≡ rb = ground arith in inl (rb, (rw f at p), q)
    ]
  ]

  Same-Linked :
      a < length uf.parent
      → b < length uf.parent
      → Same uf' a b ↔ (Same uf a b ⊎ Crosses uf old new a b)
  Same-Linked ba bb = (
    λ (r, pa, pb).
        let (ra, qa) = root_exists uf a v ba in
        let (rb, qb) = root_exists uf b v bb in
        Same-of_roots qa qb (Root-unique (l.moved a ra qa) pa ∙ Root-unique pb (l.moved b rb qb)),
    backwards,
  )
    where
      backwards : (Same uf a b ⊎ Crosses uf old new a b) → Same uf' a b
      backwards (inl (r, pa, pb)) = (moved_root old new r, l.moved a r pa, l.moved b r pb)
      backwards (inr (inl (pa, pb))) =
          (new, (rw moved_old at (l.moved a old pa)), (rw moved_new at (l.moved b new pb)))
      backwards (inr (inr (pa, pb))) =
          (new, (rw moved_new at (l.moved a new pa)), (rw moved_old at (l.moved b old pb)))

  Same-Linked_swap :
      a < length uf.parent
      → b < length uf.parent
      → Same uf' a b ↔ (Same uf a b ⊎ Crosses uf new old a b)
  Same-Linked_swap ba bb =
      (λ h. swap ((Same-Linked ba bb).0 h), λ h. (Same-Linked ba bb).1 (swap_back h))
    where
      swap : (Same uf a b ⊎ Crosses uf old new a b) → (Same uf a b ⊎ Crosses uf new old a b)
      swap (inl h) = inl h
      swap (inr (inl h)) = inr (inr h)
      swap (inr (inr h)) = inr (inl h)

      swap_back : (Same uf a b ⊎ Crosses uf new old a b) → (Same uf a b ⊎ Crosses uf old new a b)
      swap_back (inl h) = inl h
      swap_back (inr (inl h)) = inr (inr h)
      swap_back (inr (inr h)) = inr (inl h)

Same-Joined :
    {uf uf' : UnionFind} (rx ry : ℕ)
    → IsValid uf
    → get_elem? uf.parent rx ≡ some rx
    → Joined uf uf' rx ry
    → (a b : ℕ) → a < length uf.parent
    → b < length uf.parent
    → Same uf' a b ↔ (Same uf a b ⊎ Crosses uf rx ry a b)
Same-Joined {uf} {uf'} rx ry v tx (equal e q) a b ba bb = rw q (λ h. inl h, collapse)
  where
    collapse : (Same uf a b ⊎ Crosses uf rx ry a b) → Same uf a b
    collapse (inl h) = h
    collapse (inr (inl (p, q))) = (rx, p, (rw e q))
    collapse (inr (inr (p, q))) = (rx, (rw e p), q)
Same-Joined rx ry v tx (forward l) a b ba bb = Same-Linked v rx ry l a b ba bb
Same-Joined rx ry v tx (backward l) a b ba bb = Same-Linked_swap v ry rx l a b ba bb

Joined-IsValid :
    {uf uf' : UnionFind} {rx ry : ℕ}
    → IsValid uf
    → Joined uf uf' rx ry
    → IsValid uf' × (length uf'.parent ≡ length uf.parent)
Joined-IsValid v (equal e q) = rw q (v, refl)
Joined-IsValid v (forward l) = (l.valid, l.same_length)
Joined-IsValid v (backward l) = (l.valid, l.same_length)

-- `a` and `b` are in one set once the sets of `x` and `y` are joined.
abbrev pub Joins : UnionFind → ℕ → ℕ → ℕ → ℕ → Type 0
Joins uf x y a b = Same uf a b ⊎ ((Same uf a x × Same uf y b) ⊎ (Same uf a y × Same uf x b))

pub record United (uf : UnionFind) (x y : ℕ) (uf' : UnionFind) : Type 0 where
  pub valid : IsValid uf'
  pub same_length : length uf'.parent ≡ length uf.parent
  pub joins :
      (a b : ℕ) → a < length uf.parent → b < length uf.parent → Same uf' a b ↔ Joins uf x y a b

module _ (uf uf' : UnionFind) (v : IsValid uf)
    (keep : (y s : ℕ) → Root uf.parent y s → Root uf'.parent y s) where
  pub reflect : (a r : ℕ) → a < length uf.parent → Root uf'.parent a r → Root uf.parent a r
  reflect a r b h = let (s, k) = root_exists uf a v b in rw (Root-unique h (keep a s k)) k

  Joins-keep :
      (x y rx ry a b : ℕ)
      → Root uf.parent x rx
      → Root uf.parent y ry
      → a < length uf.parent
      → b < length uf.parent
      → (Same uf' a b ⊎ Crosses uf' rx ry a b) ↔ Joins uf x y a b
  Joins-keep x y rx ry a b hx hy ba bb = (there, back)
    where
      there : (Same uf' a b ⊎ Crosses uf' rx ry a b) → Joins uf x y a b
      there (inl (r, p, q)) = inl (r, reflect a r ba p, reflect b r bb q)
      there (inr (inl (p, q))) =
          inr (inl ((rx, reflect a rx ba p, hx), (ry, hy, reflect b ry bb q)))
      there (inr (inr (p, q))) =
          inr (inr ((ry, reflect a ry ba p, hy), (rx, hx, reflect b rx bb q)))

      back : Joins uf x y a b → (Same uf' a b ⊎ Crosses uf' rx ry a b)
      back (inl (r, p, q)) = inl (r, keep a r p, keep b r q)
      back (inr (inl ((r, p, h), (s, k, q)))) =
          inr (inl ((rw (Root-unique hx h) (keep a r p)), (rw (Root-unique hy k) (keep b s q))))
      back (inr (inr ((r, p, h), (s, k, q)))) =
          inr (inr ((rw (Root-unique hy h) (keep a r p)), (rw (Root-unique hx k) (keep b s q))))

-- On a well-formed union-find, `union x y` ends without a panic and joins the set of `x` with the
-- set of `y`, and no other sets: two elements share a set afterwards exactly when they did before,
-- or one was with `x` and the other with `y`.
pub union_lem :
    (uf : UnionFind) (x y : ℕ)
    → IsValid uf
    → x < length uf.parent
    → y < length uf.parent
    → (uf' : UnionFind) × (union uf x y ≡ some uf') × United uf x y uf'
unfolding union
union_lem uf x y v bx by =
    let ((rx, uf1), e1, f1) = find_lem uf x v bx in
    let ((ry, uf2), e2, f2) = find_lem uf1 y f1.valid (rw f1.same_length by) in
    let keep : (z s : ℕ) → Root uf.parent z s → Root uf2.parent z s =
      λ z s h. f2.same_roots z s (f1.same_roots z s h) in
    let size : length uf2.parent ≡ length uf.parent = f2.same_length ∙ f1.same_length in
    let hy : Root uf.parent y ry = reflect uf uf1 v f1.same_roots y ry by f2.root in
    let tx = Root-top (keep x rx f1.root) in
    let (uf', e, j) = union_roots_lem uf2 f2.valid rx ry tx (Root-top (keep y ry hy)) in
    let (v', l') = Joined-IsValid f2.valid j in
    (
      uf',
      rw (e1, e2) e,
      record {
        valid = v';
        same_length = l' ∙ size;
        joins = λ a b ba bb.
            let s = Same-Joined rx ry f2.valid tx j a b (rw size ba) (rw size bb) in
            let k = Joins-keep uf uf2 v keep x y rx ry a b f1.root hy ba bb in
            (λ h. k.0 (s.0 h), λ h. s.1 (k.1 h));
      },
    )
