-- ===== src/Watcher/Loop/Batches.antt =====
-- The batches that the loop of apps/daemon/src/watcher.rs collects.
use mathlib.Core.List.{append-nil, append_assoc}
use hypr_drive.Prelude.{
  ℕ, ◌+◌, ◌≤◌, ◌<◌, ◌≡◌, refl, ap, ◌∙◌, List, [], ◌∷◌, ◌++◌, arith, length, length-append, max,
  Bool-cases, inl, inr,
}
use hypr_drive.Prelude.HashMap.{All}
use hypr_drive.Changes.{VolumedChange}
use hypr_drive.Watcher.Loop.{Poll, arrives, expires, Run, on_expiry, is_full, collect}

unfoldable pub arrivals : List Poll → List VolumedChange
arrivals [] = []
arrivals (arrives v ∷ polls) = v ∷ arrivals polls
arrivals (expires ∷ polls) = arrivals polls

pub flatten : List (List VolumedChange) → List VolumedChange
flatten [] = []
flatten (b ∷ bs) = b ++ flatten bs

abbrev pub content : Run → List VolumedChange
content r = flatten r.dispatched ++ r.dropped

content-on_expiry : (b : List VolumedChange) (r : Run) → content (on_expiry b r) ≡ b ++ content r
unfolding flatten on_expiry
content-on_expiry [] r = refl
content-on_expiry (v ∷ b) r = append_assoc (v ∷ b) (flatten r.dispatched) r.dropped

-- Every event that arrives is in exactly one place, in the order of arrival: in a dispatched batch,
-- or in the batch that is open when the channel closes.
pub content-collect :
    (max_batch : ℕ) (batch : List VolumedChange) (polls : List Poll)
    → content (collect max_batch batch polls) ≡ batch ++ arrivals polls
unfolding collect arrivals flatten
content-collect m b [] = rw append-nil
content-collect m b (expires ∷ polls) =
    content-on_expiry b (collect m [] polls) ∙ ap (◌++◌ b) (content-collect m [] polls)
content-collect m b (arrives v ∷ polls) = elim (Bool-cases (is_full m (b ++ v ∷ []))) [
  | inl full ↦ rw full (
      append_assoc (b ++ v ∷ []) (flatten (collect m [] polls).dispatched)
        (collect m [] polls).dropped
      ∙ rw (content-collect m [] polls) (append_assoc b (v ∷ []) (arrivals polls)))
  | inr more ↦
      rw more (content-collect m (b ++ v ∷ []) polls ∙ append_assoc b (v ∷ []) (arrivals polls))
]

abbrev pub Fits : ℕ → List VolumedChange → Type 0
Fits m b = (1 ≤ length b) × (length b ≤ max 1 m)

on_expiry-Fits :
    (m : ℕ) (b : List VolumedChange) (r : Run)
    → length b ≤ max 1 m
    → All (Fits m) r.dispatched
    → All (Fits m) (on_expiry b r).dispatched
unfolding on_expiry
on_expiry-Fits m [] r h a = a
on_expiry-Fits m (v ∷ b) r h a = ((omega arith, h), a)

-- A dispatched batch is never empty nor larger than `max_batch` (or one event), and a batch that is
-- still open has room for another event.
pub collect-Fits :
    (max_batch : ℕ) (batch : List VolumedChange) (polls : List Poll)
    → length batch < max 1 max_batch
    → All (Fits max_batch) (collect max_batch batch polls).dispatched
      × (length (collect max_batch batch polls).dropped < max 1 max_batch)
unfolding collect
collect-Fits m b [] h = (tt, h)
collect-Fits m b (expires ∷ polls) h =
    ground (arith, collect-Fits m [] polls, on_expiry-Fits m b (collect m [] polls))
collect-Fits m b (arrives v ∷ polls) h =
    ground
      (arith, collect-Fits m [] polls, collect-Fits m (b ++ v ∷ []) polls, length-append b (v ∷ []))

abbrev pub NoExpiry : List Poll → Type 0
NoExpiry [] = Unit
NoExpiry (arrives _ ∷ polls) = NoExpiry polls
NoExpiry (expires ∷ polls) = ⊥

-- If the channel closes while the debounce window of a batch is open and the batch has not filled
-- up, none of its events is dispatched.
pub collect-closed :
    (max_batch : ℕ) (batch : List VolumedChange) (polls : List Poll)
    → NoExpiry polls
    → length batch + length (arrivals polls) < max_batch
    → collect max_batch batch polls ≡ record { dispatched = []; dropped = batch ++ arrivals polls }
unfolding collect arrivals
collect-closed m b [] n h = rw append-nil
collect-closed m b (expires ∷ polls) n h = elim n [ ]
collect-closed m b (arrives v ∷ polls) n h = ground (
  arith,
  collect-closed m (b ++ v ∷ []) polls n,
  length-append b (v ∷ []),
  append_assoc b (v ∷ []) (arrivals polls),
)
