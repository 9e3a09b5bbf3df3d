-- ===== src/Store/Rows.antt =====
-- Tables of core/migrations as lists of rows: the rows of a WHERE clause, and unique keys.
pub mod Existence
pub mod Unique
use Prim.Native.Nat.{ℕ, zero, suc}
use Prim.Native.String.{String}
use mathlib.Core.Path.{◌≡◌, refl, sym, ap, ◌∙◌}
use mathlib.Core.Logic.{◌≢◌, ◌↔◌, inl, inr}
use mathlib.Core.Bool.{Bool, true, false, ◌||◌, not}
use mathlib.Core.List.{List, [], ◌∷◌, ◌++◌}
use mathlib.Core.Option.{Option, some, none}
use text.Mathlib.Text
use text.Mathlib.TextEquality.{eq_iff}
use native.Mathlib.Omega.{arith}
use hypr_drive.Prelude.{if◌then◌else◌, Bool-cases}
use hypr_drive.Prelude.HashMap.{All}

abbrev pub same : String → String → Bool
same s t = Text.◌==◌ s t

pub same_iff : (s t : String) → (same s t ≡ true) ↔ (s ≡ t)
same_iff s t = eq_iff s t

module _ {ℓ} {A : Type ℓ} where
  -- `SELECT * ... WHERE p`
  abbrev pub keep : (A → Bool) → List A → List A
  keep p [] = []
  keep p (r ∷ rows) = if p r then r ∷ keep p rows else keep p rows

  -- `UPDATE ... SET f WHERE p`
  abbrev pub update_where : (A → Bool) → (A → A) → List A → List A
  update_where p f [] = []
  update_where p f (r ∷ rows) = (if p r then f r else r) ∷ update_where p f rows

  -- `EXISTS (SELECT 1 ... WHERE p)`
  abbrev pub exists : (A → Bool) → List A → Bool
  exists p [] = false
  exists p (r ∷ rows) = p r || exists p rows

  -- `fetch_optional`
  abbrev pub first_where : (A → Bool) → List A → Option A
  first_where p [] = none
  first_where p (r ∷ rows) = if p r then some r else first_where p rows

  -- `COUNT(*)`
  abbrev pub count : (A → Bool) → List A → ℕ
  count p [] = 0
  count p (r ∷ rows) = if p r then suc (count p rows) else count p rows
