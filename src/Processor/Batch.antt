-- ===== src/Processor/Batch.antt =====
-- A whole batch of crates/object-pipeline/src/change_processor.rs.
use hypr_drive.Prelude.{
  ℕ, ◌+◌, ◌≤◌, ◌≡◌, refl, ◌∙◌, Bool, true, false, String, List, [], ◌∷◌, length, arith,
}
use hypr_drive.Changes.{FsChange}
use hypr_drive.Processor.{
  Database, Files, partition, Progress, no_stats, process_creates, process_deletes, process_moves,
  process_changes,
}
use hypr_drive.Processor.Counts.{
  successes, others, attempts, Counts-then, process_creates-Counts, process_deletes-Counts,
  process_moves-Counts, process_modifies-Counts,
}

-- The creations and modifications of a batch, and whether it asks for a rescan.
abbrev pub written : FsChange → ℕ
written (FsChange.created _) = 1
written (FsChange.modified _ _) = 1
written _ = 0

abbrev pub all_written : List FsChange → ℕ
all_written [] = 0
all_written (change ∷ changes) = written change + all_written changes

abbrev pub rescans_too : FsChange → Bool → Bool
rescans_too (FsChange.full_rescan_needed _ _) b = true
rescans_too _ b = b

abbrev pub asks_rescan : List FsChange → Bool
asks_rescan [] = false
asks_rescan (change ∷ changes) = rescans_too change (asks_rescan changes)

partition_lem :
    (changes : List FsChange)
    → let b = partition changes in
      (length b.creates + length b.deletes + length b.moves + length b.modifies ≤ length changes)
      × (length b.creates + length b.modifies ≡ all_written changes)
      × (b.rescan ≡ asks_rescan changes)
unfolding partition
partition_lem [] = (omega arith, refl, refl)
partition_lem (FsChange.created e ∷ changes) =
    let (a, b, c) = partition_lem changes in (omega (arith, a), omega (arith, b), c)
partition_lem (FsChange.deleted f o ∷ changes) =
    let (a, b, c) = partition_lem changes in (omega (arith, a), omega (arith, b), c)
partition_lem (FsChange.moved f o n ∷ changes) =
    let (a, b, c) = partition_lem changes in (omega (arith, a), omega (arith, b), c)
partition_lem (FsChange.modified f n ∷ changes) =
    let (a, b, c) = partition_lem changes in (omega (arith, a), omega (arith, b), c)
partition_lem (FsChange.full_rescan_needed v r ∷ changes) =
    let (a, b, c) = partition_lem changes in (omega (arith, a), omega (arith, b), refl)

-- The counters after a batch, whatever the database and the file system answer: no more successes
-- than changes; no more successes other than deletions, with the errors, than changes; every
-- creation and every modification is counted as such or as an error; and a rescan is asked for
-- exactly if a change of the batch asks for one.
pub process_changes-counts :
    {D : Type 0} (q : Database D) (files : Files) (changes : List FsChange) (db : D)
    (m : List (ℕ × String))
    → let s = (process_changes q files changes db m).stats in
      (successes s ≤ length changes)
      × (others s ≤ length changes)
      × (all_written changes ≤ attempts s)
      × (s.rescan_needed ≡ asks_rescan changes)
unfolding process_changes
process_changes-counts {D} q files changes db m =
    let b = partition changes in
    let (sizes, writes, rescan) = partition_lem changes in
    let p0 : Progress D = record {
      db = db;
      fid_map = m;
      stats = record no_stats { rescan_needed = b.rescan };
    } in
    let p1 = process_creates q files b.creates p0 in
    let p2 = process_deletes q files b.deletes p1 in
    let p3 = process_moves q files b.moves p2 in
    let c = Counts-then (process_creates-Counts q files b.creates p0) (
      Counts-then (process_deletes-Counts q files b.deletes p1) (
        Counts-then (process_moves-Counts q files b.moves p2)
          (process_modifies-Counts q files b.modifies p3))) in
    (
      omega (arith, c.successes_bound, sizes),
      omega (arith, c.others_bound, sizes),
      omega (arith, c.attempts_bound, writes),
      c.same_rescan ∙ rescan,
    )
