-- ===== src/Prelude/Maps.antt =====
-- Ordered maps of the standard library (`BTreeMap`, `BTreeSet`), keyed by a number: a list of
-- entries in increasing order of the keys.
use Prim.Native.Nat.{ℕ, ◌≤◌, ◌<◌}
use mathlib.Core.Path.{◌≡◌, refl}
use mathlib.Core.List.{List, [], ◌∷◌, map}
use mathlib.Core.Option.{Option, none, some}
use native.Mathlib.Omega.{arith}
use hypr_drive.Prelude.Tests.{◌==◌, ltb, if◌then◌else◌}

module _ {ℓ} {V : Type ℓ} where
  -- `map.get(&k)`
  unfoldable pub lookup : ℕ → List (ℕ × V) → Option V
  lookup k [] = none
  lookup k ((j, v) ∷ m) = if j == k then some v else lookup k m

  -- `*map.entry(k).or_insert(..)` followed by a write of `f` of the old entry, if any.
  unfoldable pub alter : ℕ → (Option V → V) → List (ℕ × V) → List (ℕ × V)
  alter k f [] = (k, f none) ∷ []
  alter k f ((j, v) ∷ m) =
      if j == k
      then (k, f (some v)) ∷ m
      else if ltb k j
      then (k, f none) ∷ (j, v) ∷ m
      else (j, v) ∷ alter k f m

  abbrev pub keys : List (ℕ × V) → List ℕ
  keys = map (λ e. e.0)

  -- Every key of the map is above `k`.
  abbrev pub Above : ℕ → List (ℕ × V) → Type 0
  Above k [] = Unit
  Above k ((j, v) ∷ m) = (k < j) × Above k m

  abbrev pub IsSorted : List (ℕ × V) → Type 0
  IsSorted [] = Unit
  IsSorted ((j, v) ∷ m) = Above j m × IsSorted m

  pub Above-trans : (k j : ℕ) (m : List (ℕ × V)) → k ≤ j → Above j m → Above k m
  Above-trans k j [] h a = tt
  Above-trans k j ((i, v) ∷ m) h a = (omega arith, Above-trans k j m h a.1)

  pub lookup-Above : (k : ℕ) (m : List (ℕ × V)) → Above k m → lookup k m ≡ none
  unfolding lookup
  lookup-Above k [] a = refl
  lookup-Above k ((i, v) ∷ m) a = ground (arith, lookup-Above k m a.1)

  Above-alter :
      (i k : ℕ) (f : Option V → V) (m : List (ℕ × V)) → i < k → Above i m → Above i (alter k f m)
  unfolding alter
  Above-alter i k f [] h a = (h, tt)
  Above-alter i k f ((j, v) ∷ m) h a = ground (arith, Above-alter i k f m h a.1)

  pub alter-IsSorted :
      (k : ℕ) (f : Option V → V) (m : List (ℕ × V)) → IsSorted m → IsSorted (alter k f m)
  unfolding alter
  alter-IsSorted k f [] s = (tt, tt)
  alter-IsSorted k f ((j, v) ∷ m) s =
      ground (arith, alter-IsSorted k f m s.1, Above-alter j k f m, Above-trans k j m)

  pub lookup-alter :
      (k j : ℕ) (f : Option V → V) (m : List (ℕ × V))
      → IsSorted m
      → lookup j (alter k f m) ≡ (if k == j then some (f (lookup k m)) else lookup j m)
  unfolding lookup alter
  lookup-alter k j f [] s = refl
  lookup-alter k j f ((i, v) ∷ m) s =
      ground (arith, lookup-alter k j f m s.1, lookup-Above k m, Above-trans k i m)
