-- ===== src/Watcher/Tests.antt =====
-- Runs of apps/daemon/src/watcher.rs, and its theorems at concrete batches.
use hypr_drive.Prelude.{
  ℕ, ◌+◌, ◌≡◌, refl, Bool, true, false, some, none, List, [], ◌∷◌, arith, String, length, ◌<◌,
  ℕ_discrete,
}
use hypr_drive.Prelude.Int.{pos}
use hypr_drive.Prelude.Text.{String_discrete}
use hypr_drive.Prelude.HashMap.{in_order, All, at_key, update}
use hypr_drive.Changes.{
  IndexEntry, FsChange, created, deleted, moved, modified, full_rescan_needed, VolumedChange,
}
use hypr_drive.Watcher.{empty, emit, coalesce_changes}
use hypr_drive.Watcher.Views.{changes_of, rescans, fold_all}
use hypr_drive.Watcher.PerFile.{coalesce_changes-per_file, rescans-coalesce_changes}
use hypr_drive.Watcher.Presence.{replay, replay-coalesce_changes, moved_modified_deleted-lost}
use hypr_drive.Watcher.Loop.{Poll, arrives, expires, collect, Processors, Daemon, process_batch}
use hypr_drive.Watcher.Loop.Batches.{
  arrivals, content, content-collect, Fits, collect-Fits, collect-closed,
}
use hypr_drive.Watcher.Loop.Dispatch.{changes_in, calls, sent-process_batch}

program : Unit {0}
unfolding coalesce_changes update ℕ_discrete changes_of rescans fold_all replay collect
program = tt

abbrev entry : ℕ → IndexEntry
entry fid = record {
  fid = fid;
  parent_fid = 5;
  name = "a.txt";
  name_lossy = "a.txt";
  full_path = "/a.txt";
  size = 10;
  allocated_size = 4096;
  is_dir = false;
  modified_at = record { secs = pos 1700000000; nanos = 0 };
  attributes = 32;
}

-- Files 1 and 2 in one batch, with a request for a rescan.
abbrev batch : List FsChange
batch =
    deleted 1 none
    ∷ modified 2 7
    ∷ full_rescan_needed "C:" "journal wrapped"
    ∷ created (entry 1)
    ∷ modified 2 9
    ∷ []

coalesced :
    coalesce_changes in_order batch
    ≡ full_rescan_needed "C:" "journal wrapped" ∷ modified 1 10 ∷ modified 2 9 ∷ []
unfolding program
coalesced = refl

coalesce_changes-per_file_example :
    changes_of 1 (coalesce_changes in_order batch) ≡ emit (fold_all empty (changes_of 1 batch))
coalesce_changes-per_file_example = coalesce_changes-per_file in_order batch 1

rescans-coalesce_changes_example : rescans (coalesce_changes in_order batch) ≡ rescans batch
rescans-coalesce_changes_example = rescans-coalesce_changes in_order batch

replay-coalesce_changes_example :
    replay true (changes_of 1 (coalesce_changes in_order batch)) ≡ replay true (changes_of 1 batch)
unfolding program
replay-coalesce_changes_example = replay-coalesce_changes in_order batch 1 true (refl, (refl, tt))

abbrev gone : List FsChange
gone = moved 3 5 "b.txt" ∷ modified 1 4 ∷ modified 3 8 ∷ modified 3 9 ∷ deleted 3 none ∷ []

moved_modified_deleted-lost_example :
    (replay true (changes_of 3 gone) ≡ false) × (changes_of 3 (coalesce_changes in_order gone) ≡ [])
unfolding program
moved_modified_deleted-lost_example =
    moved_modified_deleted-lost in_order gone 3 5 8 "b.txt" none (modified 3 9 ∷ []) tt refl

abbrev event : String → ℕ → VolumedChange
event vol fid = record { volume = vol; volume_id = vol; change = modified fid 1 }

abbrev polls : List Poll
polls =
    expires ∷ arrives (event "C" 1) ∷ arrives (event "D" 2) ∷ expires ∷ arrives (event "C" 3) ∷ []

batches :
    collect 5000 [] polls
    ≡ record { dispatched = (event "C" 1 ∷ event "D" 2 ∷ []) ∷ []; dropped = event "C" 3 ∷ [] }
unfolding program
batches = refl

content-collect_example : content (collect 2 [] polls) ≡ arrivals polls
content-collect_example = content-collect 2 [] polls

collect-Fits_example :
    All (Fits 2) (collect 2 [] polls).dispatched × (length (collect 2 [] polls).dropped < 2)
collect-Fits_example = collect-Fits 2 [] polls (omega arith)

abbrev open_window : List Poll
open_window = arrives (event "C" 1) ∷ arrives (event "C" 2) ∷ []

collect-closed_example :
    collect 5000 [] open_window ≡ record { dispatched = []; dropped = arrivals open_window }
unfolding arrivals
collect-closed_example = collect-closed 5000 [] open_window tt (omega arith)

-- Processors that count their calls, for the volumes C and E.
abbrev counting : Processors ℕ
counting = record {
  known = λ vol. vol_known (String_discrete vol "D");
  process = λ _ _ w. (some false, w + 1);
}
  where
    vol_known : {P : Type 0} → Dec P → Bool
    vol_known (yes _) = false
    vol_known (no _) = true

abbrev start : Daemon ℕ
start = record { world = 0; sent = []; rescan_signals = 0 }

sent-process_batch_example :
    at_key String_discrete "C"
      (process_batch counting in_order in_order (event "C" 1 ∷ event "D" 2 ∷ []) start).sent
    ≡ calls counting in_order
        (counting.known "C")
        (coalesce_changes in_order (changes_in "C" (event "C" 1 ∷ event "D" 2 ∷ [])))
sent-process_batch_example =
    sent-process_batch counting in_order in_order (event "C" 1 ∷ event "D" 2 ∷ []) start "C"
