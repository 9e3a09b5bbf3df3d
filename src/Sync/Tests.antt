-- ===== src/Sync/Tests.antt =====
-- Runs of core/src/domain/sync.rs, and its theorems at concrete clocks.
use Prim.Native.Nat.{Ordering}
use hypr_drive.Prelude.{◌≡◌, refl, some, none, [], ◌∷◌, arith, max}
use hypr_drive.Prelude.Maps.{lookup, alter}
use hypr_drive.Sync.{VectorClock, new, increment, get, merge, partial_order, all_keys}
use hypr_drive.Sync.Merge.{Leq, get-merge, merge-least}
use hypr_drive.Sync.Causal.{Related, partial_order-Related, partial_order-increment}

program : Unit {0}
unfolding new increment get merge partial_order all_keys lookup alter
program = tt

abbrev one : VectorClock
one = record { entries = (1, 2) ∷ (5, 1) ∷ [] }

abbrev two : VectorClock
two = record { entries = (1, 1) ∷ (3, 4) ∷ [] }

runs :
    (merge one two ≡ record { entries = (1, 2) ∷ (3, 4) ∷ (5, 1) ∷ [] })
    × (partial_order one two ≡ none)
    × (partial_order one (merge one two) ≡ some Ordering.lt)
    × (increment 3 (increment 3 new) ≡ record { entries = (3, 2) ∷ [] })
unfolding program
runs = (refl, refl, refl, refl)

get-merge_example : get (merge one two) 1 ≡ max (get one 1) (get two 1)
get-merge_example = get-merge one two 1 (omega arith) (omega arith)

merge-least_example :
    Leq one (merge one two)
    × Leq two (merge one two)
    × ((c : VectorClock) → Leq one c → Leq two c → Leq (merge one two) c)
merge-least_example = merge-least one two (omega arith) (omega arith)

partial_order-Related_example : Related one two (partial_order one two)
partial_order-Related_example = partial_order-Related one two

partial_order-increment_example : partial_order one (increment 3 one) ≡ some Ordering.lt
unfolding get lookup
partial_order-increment_example = partial_order-increment 3 one (omega arith) (omega arith)
