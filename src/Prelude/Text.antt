-- ===== src/Prelude/Text.antt =====
-- Texts as keys: names, paths and identifiers that the program only compares.
use Prim.Native.String.{String}
use mathlib.Core.Path.{◌≡◌, refl}
use mathlib.Core.Logic.{◌↔◌}
use mathlib.Core.Bool.{Bool, true, false, false≢true}
use text.Mathlib.Text.{◌==◌}
use text.Mathlib.TextEquality.{eq_iff}

abbrev decide_by : {P : Type 0} (b : Bool) → (b ≡ true) ↔ P → Dec P
decide_by true h = yes (h.0 refl)
decide_by false h = no (λ p. false≢true (h.1 p))

abbrev pub String_discrete : Discrete String
String_discrete s t = decide_by (s == t) (eq_iff s t)
