-- ===== src/Sync/Merge.antt =====
-- `increment` and `merge` of core/src/domain/sync.rs: the well-formed clocks, and merging as the
-- least upper bound.
use hypr_drive.Prelude.{ℕ, ◌+◌, ◌≤◌, ◌%◌, max, ◌≡◌, List, [], ◌∷◌, arith, ◌==◌, if◌then◌else◌}
use hypr_drive.Prelude.Maps.{lookup, alter, IsSorted, alter-IsSorted, lookup-alter, lookup-Above}
use hypr_drive.Sync.{
  VectorClock, DeviceId, u64_mod, or_zero, new, increment, get, raise, merge_entries, merge,
}

-- What a `BTreeMap` is: its keys increase.
abbrev pub IsValid : VectorClock → Type 0
IsValid c = IsSorted c.entries

-- `a` has seen nothing that `b` has not.
abbrev pub Leq : VectorClock → VectorClock → Type 0
Leq a b = (k : DeviceId) → get a k ≤ get b k

pub new-IsValid : IsValid new
unfolding new
new-IsValid = tt

pub increment-IsValid : (d : DeviceId) (c : VectorClock) → IsValid c → IsValid (increment d c)
unfolding increment
increment-IsValid d c v = alter-IsSorted d _ c.entries v

merge_entries-IsSorted :
    (mine theirs : List (DeviceId × ℕ)) → IsSorted mine → IsSorted (merge_entries mine theirs)
unfolding merge_entries
merge_entries-IsSorted mine [] s = s
merge_entries-IsSorted mine ((d, n) ∷ theirs) s =
    merge_entries-IsSorted (alter d (raise n) mine) theirs (alter-IsSorted d (raise n) mine s)

pub merge-IsValid : (a b : VectorClock) → IsValid a → IsValid (merge a b)
unfolding merge
merge-IsValid a b v = merge_entries-IsSorted a.entries b.entries v

-- An increment adds one to the counter of its device, modulo 2^64, and leaves the others alone.
pub get-increment :
    (d k : DeviceId) (c : VectorClock)
    → IsValid c
    → get (increment d c) k ≡ (if d == k then (get c d + 1) % u64_mod else get c k)
unfolding get increment
get-increment d k c v = rw (lookup-alter d k _ c.entries v) (ground arith)

get-merge_entries :
    (k : DeviceId) (mine theirs : List (DeviceId × ℕ))
    → IsSorted mine
    → IsSorted theirs
    → or_zero (lookup k (merge_entries mine theirs))
      ≡ max (or_zero (lookup k mine)) (or_zero (lookup k theirs))
unfolding merge_entries lookup
get-merge_entries k mine [] s t = omega arith
get-merge_entries k mine ((d, n) ∷ theirs) s t = ground (
  arith,
  get-merge_entries k (alter d (raise n) mine) theirs (alter-IsSorted d (raise n) mine s) t.1,
  lookup-alter d k (raise n) mine s,
  lookup-Above d theirs t.0,
)

-- Merging takes the larger counter of every device.
pub get-merge :
    (a b : VectorClock) (k : DeviceId)
    → IsValid a
    → IsValid b
    → get (merge a b) k ≡ max (get a k) (get b k)
unfolding get merge
get-merge a b k v w = get-merge_entries k a.entries b.entries v w

module _ (a b : VectorClock) (v : IsValid a) (w : IsValid b) where
  -- Merging gives the least clock that has seen all that either clock has: it is above both, and
  -- below every clock that is above both.
  pub merge-least :
      Leq a (merge a b)
      × Leq b (merge a b)
      × ((c : VectorClock) → Leq a c → Leq b c → Leq (merge a b) c)
  merge-least = (
    λ k. omega (arith, get-merge a b k v w),
    λ k. omega (arith, get-merge a b k v w),
    λ c p q k. omega (arith, get-merge a b k v w, p k, q k),
  )
