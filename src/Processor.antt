-- ===== src/Processor.antt =====
-- crates/object-pipeline/src/change_processor.rs: a batch of changes of one volume, dispatched to
-- the pipeline and to the queries of the database. The queries (core/src/db/queries.rs), the
-- pipeline and the file system are an interface here.
pub mod Counts
pub mod Batch
mod Tests
use hypr_drive.Prelude.{
  ℕ, suc, ◌+◌, ◌^◌, Bool, true, false, Option, some, none, String, List, [], ◌∷◌, ◌++◌, length, ltb,
  if◌then◌else◌, ℕ_discrete,
}
use hypr_drive.Prelude.HashMap.{get, update, option_list}
use hypr_drive.Prelude.Results.{Result, ok, err}
use hypr_drive.Changes.{DateTime, IndexEntry, FsChange}

pub record ChangeStats : Type 0 where
  pub created : ℕ
  pub deleted : ℕ
  pub moved : ℕ
  pub modified : ℕ
  pub errors : ℕ
  pub rescan_needed : Bool

abbrev pub no_stats : ChangeStats
no_stats = record {
  created = 0;
  deleted = 0;
  moved = 0;
  modified = 0;
  errors = 0;
  rescan_needed = false;
}

-- The database, with the volume, as the queries change it. A relocation takes the new path, from
-- which it has the new id, extension and parent, and the text of the name.
pub record Database (D : Type 0) : Type 0 where
  pub process_entries : List IndexEntry → D → Result String Unit × D
  pub delete_location_by_fid : ℕ → D → Result String (Option String) × D
  pub delete_location_by_path : String → D → Result String (Option String) × D
  pub delete_orphan_objects : List String → D → Result String ℕ × D
  pub relocate_location : ℕ → String → String → D → Result String Bool × D

-- Paths and the file system: `to_string_lossy`, `is_empty`, `join`, `file_name`, and `metadata` with
-- what it changes in an entry; `synthetic` is the entry that a modification is processed as.
pub record Files : Type 0 where
  pub lossy : String → String
  pub is_empty : String → Bool
  pub join : String → String → String
  pub file_name : String → Option String
  pub stat : String → IndexEntry → IndexEntry
  pub synthetic : ℕ → String → String → ℕ → IndexEntry

-- The buckets that a batch is partitioned into, each in the order of the batch.
pub record Buckets : Type 0 where
  pub creates : List IndexEntry
  pub deletes : List (ℕ × Option String)
  pub moves : List (ℕ × ℕ × String)
  pub modifies : List (ℕ × ℕ)
  pub rescan : Bool

unfoldable pub partition : List FsChange → Buckets
partition [] = record { creates = []; deletes = []; moves = []; modifies = []; rescan = false }
partition (change ∷ changes) = put change (partition changes)
  where
    put : FsChange → Buckets → Buckets
    put (FsChange.created entry) b = record b { creates = entry ∷ b.creates }
    put (FsChange.deleted fid path) b = record b { deletes = (fid, path) ∷ b.deletes }
    put (FsChange.moved fid parent name) b = record b { moves = (fid, parent, name) ∷ b.moves }
    put (FsChange.modified fid size) b = record b { modifies = (fid, size) ∷ b.modifies }
    put (FsChange.full_rescan_needed _ _) b = record b { rescan = true }

-- The processor between two steps: the database, the map of paths and the counters.
pub record Progress (D : Type 0) : Type 0 where
  pub db : D
  pub fid_map : List (ℕ × String)
  pub stats : ChangeStats

unfoldable pub seed_fid_map : List IndexEntry → List (ℕ × String) → List (ℕ × String)
seed_fid_map [] m = m
seed_fid_map (e ∷ entries) m = seed_fid_map entries (update ℕ_discrete e.fid (λ _. e.full_path) m)

unfoldable pub remove : ℕ → List (ℕ × String) → List (ℕ × String)
remove fid [] = []
remove fid ((k, path) ∷ m) = elim (ℕ_discrete k fid) [
  | yes _ ↦ remove fid m
  | no _ ↦ (k, path) ∷ remove fid m
]

abbrev pub error_more : {D : Type 0} → ℕ → Progress D → Progress D
error_more n p = record p { stats = record p.stats { errors = p.stats.errors + n } }

-- `i64::try_from(fid)` succeeds.
abbrev pub fits_i64 : ℕ → Bool
fits_i64 fid = ltb fid (2 ^ 63)

module _ {D : Type 0} (q : Database D) (files : Files) where
  abbrev joined : String → Option String → Option String
  joined name none = none
  joined name (some parent) = some (files.join parent name)

  unfoldable pub resolve_path : List (ℕ × String) → ℕ → String → Option String
  resolve_path m parent_fid name = joined name (get ℕ_discrete parent_fid m)

  abbrev at_path : IndexEntry → Option String → Option IndexEntry
  at_path e none = none
  at_path e (some path) = some (files.stat path (record e { full_path = path }))

  -- A created entry with its path, if that is known or can be resolved.
  unfoldable pub enrich : List (ℕ × String) → IndexEntry → Option IndexEntry
  unfolding resolve_path
  enrich m e =
      if files.is_empty e.full_path then at_path e (resolve_path m e.parent_fid e.name) else some e

  abbrev pub unresolved : Option IndexEntry → ℕ
  unresolved none = 1
  unresolved (some _) = 0

  -- The loop on the created entries: the enriched ones, the errors, and the map of paths, in which
  -- each entry is known to those behind it.
  unfoldable pub enrich_all :
      List (ℕ × String) → List IndexEntry → List IndexEntry × ℕ × List (ℕ × String)
  unfolding enrich seed_fid_map
  enrich_all m [] = ([], 0, m)
  enrich_all m (e ∷ entries) =
      let r = enrich m e in
      let (enriched, errors, m') = enrich_all (seed_fid_map (option_list r) m) entries in
      (option_list r ++ enriched, unresolved r + errors, m')

  abbrev pub created_more : ℕ → Result String Unit × D → Progress D → Progress D
  created_more n (ok _, db) p = record p {
    db = db;
    stats = record p.stats { created = p.stats.created + n };
  }
  created_more n (err _, db) p = record p {
    db = db;
    stats = record p.stats { errors = p.stats.errors + n };
  }

  abbrev pub run_pipeline : List IndexEntry → Progress D → Progress D
  run_pipeline [] p = p
  run_pipeline (e ∷ entries) p =
      created_more (length (e ∷ entries)) (q.process_entries (e ∷ entries) p.db) p

  unfoldable pub process_creates : List IndexEntry → Progress D → Progress D
  unfolding enrich_all
  process_creates creates p =
      let (enriched, errors, m) = enrich_all p.fid_map creates in
      run_pipeline enriched (error_more errors (record p { fid_map = m }))

  abbrev by_path :
      Option String → Result String (Option String) × D → Result String (Option String) × D
  by_path (some path) (ok none, db) = q.delete_location_by_path (files.lossy path) db
  by_path none (ok none, db) = (ok none, db)
  by_path path (ok (some object_id), db) = (ok (some object_id), db)
  by_path path (err e, db) = (err e, db)

  -- The deletion of one location: by its number, or else by its path.
  unfoldable pub delete_location : ℕ → Option String → D → Result String (Option String) × D
  delete_location fid path db =
      by_path path (if fits_i64 fid then q.delete_location_by_fid fid db else (ok none, db))

  abbrev pub deleted_one :
      ℕ → Result String (Option String) × D → Progress D × List String → Progress D × List String
  deleted_one fid (err _, db) (p, orphans) = (error_more 1 (record p { db = db }), orphans)
  deleted_one fid (ok none, db) (p, orphans) = (record p { db = db }, orphans)
  deleted_one fid (ok (some object_id), db) (p, orphans) = (
    record p {
      db = db;
      fid_map = remove fid p.fid_map;
      stats = record p.stats { deleted = suc p.stats.deleted };
    },
    orphans ++ object_id ∷ [],
  )

  unfoldable pub delete_all :
      List (ℕ × Option String) → Progress D × List String → Progress D × List String
  unfolding delete_location
  delete_all [] s = s
  delete_all ((fid, path) ∷ deletes) s =
      delete_all deletes (deleted_one fid (delete_location fid path s.0.db) s)

  abbrev pub cleaned : ℕ → Result String ℕ × D → Progress D → Progress D
  cleaned n (ok _, db) p = record p { db = db }
  cleaned n (err _, db) p = error_more n (record p { db = db })

  abbrev pub clean_orphans : Progress D × List String → Progress D
  clean_orphans (p, []) = p
  clean_orphans (p, id ∷ ids) =
      cleaned (length (id ∷ ids)) (q.delete_orphan_objects (id ∷ ids) p.db) p

  unfoldable pub process_deletes : List (ℕ × Option String) → Progress D → Progress D
  unfolding delete_all
  process_deletes deletes p = clean_orphans (delete_all deletes (p, []))

  abbrev pub moved_one : ℕ → String → Result String Bool × D → Progress D → Progress D
  moved_one fid path (ok true, db) p = record p {
    db = db;
    fid_map = update ℕ_discrete fid (λ _. path) p.fid_map;
    stats = record p.stats { moved = suc p.stats.moved };
  }
  moved_one fid path (ok false, db) p = record p { db = db }
  moved_one fid path (err _, db) p = error_more 1 (record p { db = db })

  abbrev pub move_to : ℕ → String → Option String → Progress D → Progress D
  move_to fid name none p = error_more 1 p
  move_to fid name (some path) p =
      if fits_i64 fid
      then moved_one fid path (q.relocate_location fid path (files.lossy name) p.db) p
      else error_more 1 p

  unfoldable pub process_moves : List (ℕ × ℕ × String) → Progress D → Progress D
  unfolding resolve_path
  process_moves [] p = p
  process_moves ((fid, parent, name) ∷ moves) p =
      process_moves moves (move_to fid name (resolve_path p.fid_map parent name) p)

  abbrev pub modified_one : Result String Unit × D → Progress D → Progress D
  modified_one (ok _, db) p = record p {
    db = db;
    stats = record p.stats { modified = suc p.stats.modified };
  }
  modified_one (err _, db) p = error_more 1 (record p { db = db })

  abbrev pub modify_named : ℕ → ℕ → String → Option String → Progress D → Progress D
  modify_named fid size path none p = error_more 1 p
  modify_named fid size path (some name) p =
      modified_one (q.process_entries (files.synthetic fid path name size ∷ []) p.db) p

  abbrev pub modify_at : ℕ → ℕ → Option String → Progress D → Progress D
  modify_at fid size none p = error_more 1 p
  modify_at fid size (some path) p = modify_named fid size path (files.file_name path) p

  unfoldable pub process_modifies : List (ℕ × ℕ) → Progress D → Progress D
  process_modifies [] p = p
  process_modifies ((fid, size) ∷ modifies) p =
      process_modifies modifies (modify_at fid size (get ℕ_discrete fid p.fid_map) p)

  -- The processing of a batch: creates, deletes, moves, modifications.
  unfoldable pub process_changes : List FsChange → D → List (ℕ × String) → Progress D
  unfolding partition process_creates process_deletes process_moves process_modifies
  process_changes changes db m =
      let b = partition changes in
      process_modifies b.modifies (
        process_moves b.moves (
          process_deletes b.deletes (
            process_creates b.creates (record {
              db = db;
              fid_map = m;
              stats = record no_stats { rescan_needed = b.rescan };
            }))))
