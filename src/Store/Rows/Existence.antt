-- ===== src/Store/Rows/Existence.antt =====
-- The rows of core/migrations that a change of a table leaves: what holds of them, and which exist.
use hypr_drive.Prelude.{
  ◌≡◌, refl, Bool, true, false, not, ◌||◌, List, [], ◌∷◌, ◌++◌, arith, Bool-cases, inl, inr, some,
}
use mathlib.Core.Option.{some-injective}
pub use hypr_drive.Prelude.HashMap.{All-mono}
use hypr_drive.Prelude.HashMap.{All}
use hypr_drive.Store.Rows.{keep, update_where, exists, first_where}

module _ {ℓ} {A : Type ℓ} where
  module _ {κ ι} {P : A → Type κ} {Q : A → Type ι} where
    pub All-keep :
        (p : A → Bool)
        → ((a : A) → p a ≡ true → P a → Q a)
        → (rows : List A) → All P rows
        → All Q (keep p rows)
    All-keep p f [] h = tt
    All-keep p f (r ∷ rows) h = elim (Bool-cases (p r)) [
      | inl t ↦ rw t (f r t h.0, All-keep p f rows h.1)
      | inr t ↦ rw t (All-keep p f rows h.1)
    ]

    pub All-update_where :
        (p : A → Bool) (change : A → A)
        → ((a : A) → p a ≡ true → P a → Q (change a))
        → ((a : A) → p a ≡ false → P a → Q a)
        → (rows : List A) → All P rows
        → All Q (update_where p change rows)
    All-update_where p change f g [] h = tt
    All-update_where p change f g (r ∷ rows) h = elim (Bool-cases (p r)) [
      | inl t ↦ rw t (f r t h.0, All-update_where p change f g rows h.1)
      | inr t ↦ rw t (g r t h.0, All-update_where p change f g rows h.1)
    ]

  module _ {κ} (P : A → Type κ) where
    pub All-snoc : (rows : List A) (r : A) → All P rows → P r → All P (rows ++ r ∷ [])
    All-snoc [] r h k = (k, tt)
    All-snoc (x ∷ rows) r h k = (h.0, All-snoc rows r h.1 k)

  -- No row exists: each row fails the test.
  pub exists-All :
      (p : A → Bool) (rows : List A) → exists p rows ≡ false → All (λ a. p a ≡ false) rows
  exists-All p [] h = tt
  exists-All p (r ∷ rows) h = elim (Bool-cases (p r)) [
    | inl t ↦ ground (arith, t, h)
    | inr t ↦ (t, exists-All p rows (rw t at h))
  ]

  module _ (q : A → Bool) where
    pub exists-snoc : (rows : List A) (r : A) → exists q (rows ++ r ∷ []) ≡ (exists q rows || q r)
    exists-snoc [] r = ground arith
    exists-snoc (x ∷ rows) r = ground (arith, exists-snoc rows r)

    pub exists-update_where :
        (p : A → Bool) (change : A → A)
        → ((a : A) → q (change a) ≡ q a)
        → (rows : List A) → exists q (update_where p change rows) ≡ exists q rows
    exists-update_where p change same [] = refl
    exists-update_where p change same (r ∷ rows) = elim (Bool-cases (p r)) [
      | inl t ↦ rw (t, same r, exists-update_where p change same rows) refl
      | inr t ↦ rw (t, exists-update_where p change same rows) refl
    ]

    -- What is not among the rows deleted is among the rows kept.
    pub exists-keep :
        (p : A → Bool) (rows : List A)
        → exists q rows ≡ true
        → exists q (keep p rows) ≡ false
        → exists q (keep (λ a. not (p a)) rows) ≡ true
    exists-keep p [] h k = h
    exists-keep p (r ∷ rows) h k = elim (Bool-cases (p r)) [
      | inl t ↦
          let f : q r ≡ false = ground (arith, t, k) in
          rw t (exists-keep p rows (ground (arith, f, h)) (ground (arith, t, k)))
      | inr t ↦ elim (Bool-cases (q r)) [
        | inl f ↦ ground (arith, t, f)
        | inr f ↦
            let n = exists-keep p rows (ground (arith, f, h)) (ground (arith, t, k)) in
            ground (arith, t, f, n)
      ]
    ]

  -- Nothing to update.
  pub update_where-none :
      (p : A → Bool) (change : A → A) (rows : List A)
      → exists p rows ≡ false
      → update_where p change rows ≡ rows
  update_where-none p change [] h = refl
  update_where-none p change (r ∷ rows) h = elim (Bool-cases (p r)) [
    | inl t ↦ ground (arith, t, h)
    | inr t ↦ rw (t, update_where-none p change rows (rw t at h)) refl
  ]

  -- The row that is found, if one is, passes the test and has what all rows have.
  pub All-first_where {κ} :
      (P : A → Type κ) (p : A → Bool) (rows : List A) {r : A}
      → first_where p rows ≡ some r
      → All P rows
      → P r × (p r ≡ true)
  All-first_where P p [] e h = cc
  All-first_where P p (x ∷ rows) {r} e h = elim (Bool-cases (p x)) [
    | inl t ↦ let q = some-injective x r (rw t at e) in (rw (← q) h.0, rw (← q) t)
    | inr t ↦ All-first_where P p rows (rw t at e) h.1
  ]

module _ {ℓ} {A : Type ℓ} (p : A → Bool) where
  pub keep-none : (rows : List A) → exists p rows ≡ false → keep p rows ≡ []
  keep-none [] h = refl
  keep-none (r ∷ rows) h = elim (Bool-cases (p r)) [
    | inl t ↦ ground (arith, t, h)
    | inr t ↦ rw t (keep-none rows (rw t at h))
  ]

  pub keep-all : (rows : List A) → exists p rows ≡ false → keep (λ a. not (p a)) rows ≡ rows
  keep-all [] h = refl
  keep-all (r ∷ rows) h = elim (Bool-cases (p r)) [
    | inl t ↦ ground (arith, t, h)
    | inr t ↦ rw (t, keep-all rows (rw t at h)) refl
  ]

  module _ (q : A → Bool) where
    pub keep-ext : ((a : A) → p a ≡ q a) → (rows : List A) → keep p rows ≡ keep q rows
    keep-ext e [] = refl
    keep-ext e (r ∷ rows) = rw (e r, keep-ext e rows) refl

    pub exists_mono :
        ((a : A) → p a ≡ true → q a ≡ true)
        → (rows : List A) → exists p rows ≡ true
        → exists q rows ≡ true
    exists_mono f [] h = h
    exists_mono f (r ∷ rows) h = elim (Bool-cases (p r)) [
      | inl t ↦ rw (f r t) refl
      | inr t ↦ let n = exists_mono f rows (rw t at h) in ground (arith, n)
    ]

    -- No row that passes one test passes the other.
    pub exists-keep_none :
        ((a : A) → p a ≡ true → q a ≡ false) → (rows : List A) → exists q (keep p rows) ≡ false
    exists-keep_none f [] = refl
    exists-keep_none f (r ∷ rows) = elim (Bool-cases (p r)) [
      | inl t ↦ rw (t, f r t) (exists-keep_none f rows)
      | inr t ↦ rw t (exists-keep_none f rows)
    ]

    pub exists-kept :
        ((a : A) → p a ≡ true → q a ≡ true)
        → (rows : List A) → exists p rows ≡ true
        → exists q (keep p rows) ≡ true
    exists-kept f [] h = h
    exists-kept f (r ∷ rows) h = elim (Bool-cases (p r)) [
      | inl t ↦ rw (t, f r t) refl
      | inr t ↦ rw t (exists-kept f rows (rw t at h))
    ]

    -- The rows that are updated pass a test.
    pub exists-updated :
        (change : A → A)
        → ((a : A) → p a ≡ true → q (change a) ≡ true)
        → (rows : List A) → exists p rows ≡ true
        → exists q (update_where p change rows) ≡ true
    exists-updated change f [] h = h
    exists-updated change f (r ∷ rows) h = elim (Bool-cases (p r)) [
      | inl t ↦ rw (t, f r t) refl
      | inr t ↦ let n = exists-updated change f rows (rw t at h) in rw t (ground (arith, n))
    ]

    pub exists-updated_same :
        (change : A → A)
        → ((a : A) → p a ≡ true → q (change a) ≡ q a)
        → (rows : List A) → exists q (update_where p change rows) ≡ exists q rows
    exists-updated_same change f [] = refl
    exists-updated_same change f (r ∷ rows) = elim (Bool-cases (p r)) [
      | inl t ↦ rw (t, f r t, exists-updated_same change f rows) refl
      | inr t ↦ rw (t, exists-updated_same change f rows) refl
    ]
