-- ===== src/Processor/Tests.antt =====
-- A batch of crates/object-pipeline/src/change_processor.rs at a concrete database.
use hypr_drive.Prelude.{
  ℕ, ◌+◌, ◌≤◌, ◌≡◌, refl, true, false, some, none, String, List, [], ◌∷◌, ℕ_discrete,
}
use hypr_drive.Prelude.Results.{ok, err}
use hypr_drive.Prelude.Int.{pos}
use hypr_drive.Changes.{IndexEntry, FsChange}
use hypr_drive.Processor.{
  Database, Files, ChangeStats, process_changes, process_creates, process_deletes, process_moves,
  process_modifies, partition, enrich_all, enrich, seed_fid_map, delete_all, delete_location,
  resolve_path, remove,
}
use hypr_drive.Prelude.HashMap.{get, update}
use hypr_drive.Processor.Counts.{successes, others, attempts}
use hypr_drive.Processor.Batch.{process_changes-counts}

-- A database that counts its calls, in which nothing can be moved.
abbrev queries : Database ℕ
queries = record {
  process_entries = λ entries n. (ok tt, n + 1);
  delete_location_by_fid = λ fid n. (ok (some "object"), n + 1);
  delete_location_by_path = λ path n. (ok none, n + 1);
  delete_orphan_objects = λ ids n. (err "locked", n + 1);
  relocate_location = λ fid path name n. (ok false, n + 1);
}

abbrev entry : ℕ → String → IndexEntry
entry fid path = record {
  fid = fid;
  parent_fid = 5;
  name = path;
  name_lossy = path;
  full_path = path;
  size = 1;
  allocated_size = 1;
  is_dir = false;
  modified_at = record { secs = pos 0; nanos = 0 };
  attributes = 0;
}

abbrev files : Files
files = record {
  lossy = λ s. s;
  is_empty = λ path. false;
  join = λ parent name. name;
  file_name = λ path. some path;
  stat = λ path e. e;
  synthetic = λ fid path name size. entry fid path;
}

abbrev batch : List FsChange
batch =
    FsChange.created (entry 1 "/a")
    ∷ FsChange.deleted 2 none
    ∷ FsChange.moved 1 9 "b"
    ∷ FsChange.modified 1 7
    ∷ FsChange.full_rescan_needed "C:" "overflow"
    ∷ []

-- The orphan of the deletion cannot be removed, and the new parent of the move is not known.
abbrev expected : ChangeStats
expected = record {
  created = 1;
  deleted = 1;
  moved = 0;
  modified = 1;
  errors = 2;
  rescan_needed = true;
}

stats_after : (process_changes queries files batch 0 []).stats ≡ expected
unfolding process_changes process_creates process_deletes process_moves process_modifies partition
    enrich_all enrich seed_fid_map delete_all delete_location resolve_path remove get update
    ℕ_discrete
stats_after = refl

process_changes-counts_example :
    let s = (process_changes queries files batch 0 []).stats in
    (successes s ≤ 5) × (others s ≤ 5) × (2 ≤ attempts s) × (s.rescan_needed ≡ true)
process_changes-counts_example = process_changes-counts queries files batch 0 []
