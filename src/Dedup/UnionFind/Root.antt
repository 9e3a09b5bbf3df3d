-- ===== src/Dedup/UnionFind/Root.antt =====
-- The forest of crates/dedup-engine/src/grouping.rs: which root an element has, and what writing a
-- parent does to the roots.
use mathlib.Core.Logic.{ite, if_pos, if_neg}
use hypr_drive.Prelude.{
  zero, suc, [], ◌∷◌, ◌∙◌, ℕ, ◌≡◌, ◌≢◌, refl, sym, ap, some, List, arith, get_elem?, set, length,
  ◌<◌, get_elem?-set_self, get_elem?-set_ne, ℕ_discrete,
}

-- Following the parents from `x` ends at `r`.
pub data Root (parent : List ℕ) : ℕ → ℕ → Type 0 where
  top : (x : ℕ) → get_elem? parent x ≡ some x → Root parent x x
  up : (x p r : ℕ) → get_elem? parent x ≡ some p → p ≢ x → Root parent p r → Root parent x r

pub in_range : (xs : List ℕ) (i : ℕ) {v : ℕ} → get_elem? xs i ≡ some v → i < length xs
in_range [] i h = cc
in_range (x ∷ xs) zero h = omega arith
in_range (x ∷ xs) (suc i) h = omega (arith, in_range xs i h)

module _ {parent : List ℕ} where
  pub Root-top : {x r : ℕ} → Root parent x r → get_elem? parent r ≡ some r
  Root-top (top x e) = e
  Root-top (up x p r e n h) = Root-top h

  pub Root-unique : {x r s : ℕ} → Root parent x r → Root parent x s → r ≡ s
  Root-unique (top x e) (top y f) = refl
  Root-unique (top x e) (up y p s f n h) = absurd (n (cc))
  Root-unique (up x p r e n h) (top y f) = absurd (n (cc))
  Root-unique (up x p r e n h) (up y q s f m k) = let same : p ≡ q = cc in Root-unique h (rw same k)

module _ (parent : List ℕ) (c r : ℕ) (h : Root parent c r) where
  -- Pointing an element directly to its root changes no root.
  pub Root-compress : {y s : ℕ} → Root parent y s → Root (set parent c r) y s
  Root-compress (top y e) = elim (ℕ_discrete c y) [
    | yes q ↦
        let same : r ≡ y = Root-unique h (rw q (top y e)) in
        top y (rw q (get_elem?-set_self parent y r (in_range parent y e) ∙ ap some same))
    | no q ↦ top y (get_elem?-set_ne parent r q ∙ e)
  ]
  Root-compress (up y p s e n k) = elim (ℕ_discrete c y) [
    | yes q ↦
        let same : r ≡ s = Root-unique h (rw q (up y p s e n k)) in
        let apart : r ≢ y = λ z. n (cc (Root-top h)) in
        up y r s (rw q (get_elem?-set_self parent y r (in_range parent y e))) apart
          (rw (← same) (top r (get_elem?-set_ne parent r (λ z. apart (sym z ∙ q)) ∙ Root-top h)))
    | no q ↦ up y p s (get_elem?-set_ne parent r q ∙ e) n (Root-compress k)
  ]

-- The root of an element after the root `a` has been pointed to `b`.
abbrev pub moved_root : ℕ → ℕ → ℕ → ℕ
moved_root a b s = ite (ℕ_discrete s a) b s

module _ (parent : List ℕ) (a b : ℕ) (ta : get_elem? parent a ≡ some a)
    (tb : get_elem? parent b ≡ some b) (apart : a ≢ b) where
  -- Pointing a root to another root gives the elements below it that root, and changes no other.
  pub Root-link : {y s : ℕ} → Root parent y s → Root (set parent a b) y (moved_root a b s)
  Root-link (top y e) = elim (ℕ_discrete y a) [
    | yes q ↦ rw (if_pos (ℕ_discrete y a) q) (
        up y b b (rw q (get_elem?-set_self parent a b (in_range parent a ta)))
          (λ z. apart (sym (z ∙ q))) (top b (get_elem?-set_ne parent b apart ∙ tb)))
    | no q ↦ rw (if_neg (ℕ_discrete y a) q) (top y (get_elem?-set_ne parent b (λ z. q (sym z)) ∙ e))
  ]
  Root-link (up y p s e n k) =
      let other : a ≢ y = λ z. n (cc) in
      up y p (moved_root a b s) (get_elem?-set_ne parent b other ∙ e) n (Root-link k)
