-- ===== src/Prelude/Results.antt =====
-- `Result<A, E>` and chains of `?`.
use mathlib.Core.Path.{◌≡◌, refl}
use mathlib.Core.Bool.{Bool, true, false}
use hypr_drive.Prelude.Tests.{if◌then◌else◌}

pub data Result {ℓ} (E A : Type ℓ) : Type ℓ where
  err : E → Result E A
  ok : A → Result E A

abbrev pub map_err {ℓ} : {E F A : Type ℓ} → (E → F) → Result E A → Result F A
map_err convert (err problem) = err (convert problem)
map_err convert (ok value) = ok value

infixl 5 ◌>>=◌
abbrev pub ◌>>=◌ {ℓ} : {E S T : Type ℓ} → Result E S → (S → Result E T) → Result E T
err problem >>= next = err problem
ok value >>= next = next value

-- A chain that has succeeded has passed both of its parts.
pub >>=-eq-ok {ℓ} :
    {E S T : Type ℓ} (start : Result E S) (next : S → Result E T) {out : T}
    → (start >>= next) ≡ ok out
    → (middle : S) × (start ≡ ok middle) × (next middle ≡ ok out)
>>=-eq-ok (err problem) next passed = cc
>>=-eq-ok (ok value) next passed = (value, refl, passed)

-- A guard that a successful chain has passed.
pub guard-eq-ok {ℓ} :
    {E A : Type ℓ} (b : Bool) (e : E) (r : Result E A) {a : A}
    → (if b then err e else r) ≡ ok a
    → (b ≡ false) × (r ≡ ok a)
guard-eq-ok true e r h = cc
guard-eq-ok false e r h = (refl, h)
