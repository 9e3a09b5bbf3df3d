-- ===== src/Store/Rows/Unique.antt =====
-- The unique keys of the tables of core/migrations.
use hypr_drive.Prelude.{◌≡◌, ◌≢◌, sym, ◌∙◌, Bool, List, [], ◌∷◌, ◌++◌, Bool-cases, inl, inr}
use hypr_drive.Prelude.HashMap.{All}
use hypr_drive.Store.Rows.{keep, update_where}
use hypr_drive.Store.Rows.Existence.{All-keep, All-update_where, All-snoc}

module _ {ℓ κ} {A : Type ℓ} {K : Type κ} (key : A → K) where
  -- No two rows have one key.
  abbrev pub Unique : List A → Type (ℓ ⊔ κ)
  Unique [] = Unit
  Unique (r ∷ rows) = All (λ s. key s ≢ key r) rows × Unique rows

  pub Unique-keep : (p : A → Bool) (rows : List A) → Unique rows → Unique (keep p rows)
  Unique-keep p [] u = tt
  Unique-keep p (r ∷ rows) u = elim (Bool-cases (p r)) [
    | inl t ↦ rw t (All-keep p (λ a _ h. h) rows u.0, Unique-keep p rows u.1)
    | inr t ↦ rw t (Unique-keep p rows u.1)
  ]

  pub Unique-update_where :
      (p : A → Bool) (change : A → A)
      → ((a : A) → key (change a) ≡ key a)
      → (rows : List A) → Unique rows
      → Unique (update_where p change rows)
  Unique-update_where p change same [] u = tt
  Unique-update_where p change same (r ∷ rows) u = elim (Bool-cases (p r)) [
    | inl t ↦ rw t (
      All-update_where p change (λ a _ h e. h (sym (same a) ∙ e ∙ same r))
          (λ a _ h e. h (e ∙ same r)) rows u.0,
      Unique-update_where p change same rows u.1,
    )
    | inr t ↦ rw t (
      All-update_where p change (λ a _ h e. h (sym (same a) ∙ e)) (λ a _ h. h) rows u.0,
      Unique-update_where p change same rows u.1,
    )
  ]

  pub Unique-snoc :
      (rows : List A) (r : A)
      → All (λ s. key s ≢ key r) rows
      → Unique rows
      → Unique (rows ++ r ∷ [])
  Unique-snoc [] r h u = (tt, tt)
  Unique-snoc (x ∷ rows) r h u =
      (All-snoc (λ s. key s ≢ key x) rows r u.0 (λ e. h.0 (sym e)), Unique-snoc rows r h.1 u.1)
