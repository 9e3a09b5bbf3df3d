-- ===== src/Sync.antt =====
-- core/src/domain/sync.rs: vector clocks, which order the events of several devices.
-- A `DeviceId` is its 256-bit value, so the keys of the `BTreeMap` are numbers.
pub mod Merge
pub mod Causal
mod Tests
use hypr_drive.Prelude.{
  ℕ, ◌+◌, ◌%◌, ◌^◌, Bool, true, false, ◌&&◌, ◌||◌, Option, none, some, List, [], ◌∷◌, ◌++◌, String,
  ltb, if◌then◌else◌, compare, Ordering,
}
use hypr_drive.Prelude.Maps.{lookup, alter, keys}

abbrev pub DeviceId : Type 0
DeviceId = ℕ

abbrev pub u64_mod : ℕ
u64_mod = 2 ^ 64

pub record VectorClock : Type 0 where
  pub entries : List (DeviceId × ℕ)

-- `id` is the 128-bit value of the `Ulid`.
pub record SyncOperation : Type 0 where
  pub id : ℕ
  pub device_id : DeviceId
  pub operation : String
  pub payload : String
  pub clock : VectorClock

pub new : VectorClock
new = record { entries = [] }

abbrev pub or_zero : Option ℕ → ℕ
or_zero none = 0
or_zero (some n) = n

-- `*counter += 1` on a `u64`, as the release profile compiles it.
pub increment : DeviceId → VectorClock → VectorClock
increment device_id c = record {
  entries = alter device_id (λ old. (or_zero old + 1) % u64_mod) c.entries;
}

pub get : VectorClock → DeviceId → ℕ
get c device_id = or_zero (lookup device_id c.entries)

-- One round of the loop of `merge`: `if count > *entry { *entry = count }`.
abbrev pub raise : ℕ → Option ℕ → ℕ
raise count old = if ltb (or_zero old) count then count else or_zero old

pub merge_entries : List (DeviceId × ℕ) → List (DeviceId × ℕ) → List (DeviceId × ℕ)
merge_entries mine [] = mine
merge_entries mine ((device, count) ∷ theirs) =
    merge_entries (alter device (raise count) mine) theirs

pub merge : VectorClock → VectorClock → VectorClock
unfolding merge_entries
merge c other = record { entries = merge_entries c.entries other.entries }

-- `collect` into a `BTreeSet`.
pub key_set : List DeviceId → List (DeviceId × Unit {0})
key_set [] = []
key_set (k ∷ ks) = alter k (λ _. tt) (key_set ks)

-- The `match (has_less, has_greater)` after the loop.
abbrev pub verdict : Bool → Bool → Option Ordering
verdict false false = some Ordering.eq
verdict true false = some Ordering.lt
verdict false true = some Ordering.gt
verdict true true = none

-- The loop of `partial_order`, with its early return.
pub scan : VectorClock → VectorClock → Bool → Bool → List DeviceId → Option Ordering
scan a b has_less has_greater [] = verdict has_less has_greater
scan a b has_less has_greater (k ∷ ks) =
    let less = has_less || ltb (get a k) (get b k) in
    let greater = has_greater || ltb (get b k) (get a k) in
    let rest = scan a b less greater ks in if less && greater then none else rest

pub all_keys : VectorClock → VectorClock → List DeviceId
unfolding key_set
all_keys a b = keys (key_set (keys a.entries ++ keys b.entries))

pub partial_order : VectorClock → VectorClock → Option Ordering
unfolding scan all_keys
partial_order a b = scan a b false false (all_keys a b)
