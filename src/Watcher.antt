-- ===== src/Watcher.antt =====
-- apps/daemon/src/watcher.rs: the coalescing of a batch of filesystem changes, `coalesce_changes`.
-- The loop that collects the batches is in Watcher/Loop.antt.
pub mod Views
pub mod PerFile
pub mod Presence
pub mod Loop
mod Tests
use hypr_drive.Prelude.{ℕ, Option, some, none, List, [], ◌∷◌, ◌++◌, ℕ_discrete}
use hypr_drive.Prelude.HashMap
use hypr_drive.Prelude.HashMap.{Visit}
use hypr_drive.Changes.{FsChange, created, deleted, moved, modified, full_rescan_needed}

-- `change_fid`
pub change_fid : FsChange → Option ℕ
change_fid (created entry) = some entry.fid
change_fid (deleted fid _) = some fid
change_fid (moved fid _ _) = some fid
change_fid (modified fid _) = some fid
change_fid (full_rescan_needed _ _) = none

pub data CoalescedState : Type 0 where
  empty cancelled : CoalescedState
  single : FsChange → CoalescedState
  moved_then_modified : FsChange → FsChange → CoalescedState

-- `CoalescedState::fold`, its arms in the order of the source.
pub fold : CoalescedState → FsChange → CoalescedState
fold empty event = single event
fold (single (created _)) (deleted _ _) = cancelled
fold (single (deleted _ _)) (created entry) = single (modified entry.fid entry.size)
fold cancelled event = single event
fold (single (created entry)) (modified _ _) = single (created entry)
fold (single (moved fid parent name)) (modified g size) =
    moved_then_modified (moved fid parent name) (modified g size)
fold (moved_then_modified m _) (modified g size) = moved_then_modified m (modified g size)
fold (moved_then_modified _ _) (deleted _ _) = cancelled
fold _ event = single event

-- `fid_state.entry(fid).or_insert(Empty)`, replaced by its fold.
pub fold_entry : FsChange → Option CoalescedState → CoalescedState
unfolding fold
fold_entry event none = fold empty event
fold_entry event (some state) = fold state event

pub record Progress : Type 0 where
  pub fid_state : List (ℕ × CoalescedState)
  pub result : List FsChange

-- One round of the first loop.
pub take_change : Option ℕ → FsChange → Progress → Progress
unfolding fold_entry
take_change (some fid) change p = record p {
  fid_state = HashMap.update ℕ_discrete fid (fold_entry change) p.fid_state;
}
take_change none change p = record p { result = p.result ++ change ∷ [] }

pub fold_changes : List FsChange → Progress → Progress
unfolding take_change change_fid
fold_changes [] p = p
fold_changes (change ∷ changes) p = fold_changes changes (take_change (change_fid change) change p)

-- What the second loop pushes for one file.
pub emit : CoalescedState → List FsChange
emit empty = []
emit cancelled = []
emit (single event) = event ∷ []
emit (moved_then_modified m n) = m ∷ n ∷ []

pub emit_all : List (ℕ × CoalescedState) → List FsChange
unfolding emit
emit_all [] = []
emit_all ((_, state) ∷ states) = emit state ++ emit_all states

pub coalesce_changes : Visit (ℕ × CoalescedState) → List FsChange → List FsChange
unfolding fold_changes emit_all
coalesce_changes vis changes =
    let done = fold_changes changes (record { fid_state = []; result = [] }) in
    done.result ++ emit_all (vis.order done.fid_state)
