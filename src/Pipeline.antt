-- ===== src/Pipeline.antt =====
-- crates/object-pipeline/src/pipeline.rs: from index entries over hashes to the rows of the index.
-- The hash of a location, paths, dates and the clock are parameters. `none` is a panic.
pub mod Mime
pub mod Owned
pub mod Batches
mod Tests
use hypr_drive.Prelude.{
  ℕ, zero, suc, ◌+◌, ◌^◌, Bool, true, false, not, ◌||◌, Option, some, none, String, List, [], ◌∷◌,
  ◌++◌, map, length, get_elem?, take, drop, ltb, leb, ◌==◌, if◌then◌else◌, ℕ_discrete, ◌>>=◌,
}
use hypr_drive.Prelude.Int.{ℤ, pos}
use hypr_drive.Prelude.HashMap.{get, update}
use hypr_drive.Prelude.Results.{Result, ok, err}
use hypr_drive.Changes.{DateTime, IndexEntry}
use hypr_drive.Hashing.{Cache, Hasher, HashResult, BatchHashResult, hash_entries_batch}
use hypr_drive.Store.{ObjectRow, LocationRow, Store, content, deferred}
use hypr_drive.Store.Upserts.{upsert_objects_batch, upsert_locations_batch}
use hypr_drive.Pipeline.Mime.{mime_from_extension}

abbrev pub no_parent_fid : ℕ
no_parent_fid = 0

pub record PipelineConfig : Type 0 where
  pub volume_id : String
  pub batch_size : ℕ
  pub skip_directories : Bool
  pub mime_detection : Bool
  pub defer_content_hashing : Bool

pub record PipelineBatchComplete : Type 0 where
  pub total : ℕ
  pub hashed : ℕ
  pub cached : ℕ
  pub deferred : ℕ
  pub skipped : ℕ
  pub errors : ℕ
  pub directories : ℕ
  pub zero_byte : ℕ

-- `location_id` is BLAKE3 of the volume and the path; `depth` and `extension` are those of
-- `std::path`, `lossy` is `to_string_lossy`; `format` prints a date, and `now` is the date of the n-th batch.
pub record Paths : Type 0 where
  pub location_id : String → String → String
  pub lossy : String → String
  pub depth : String → ℕ
  pub extension : String → Option String
  pub to_lowercase : String → String
  pub format : DateTime → String
  pub now : ℕ → String

-- The tables, `foreign_keys` of the connection that the batches take, and the inode cache.
pub record Index : Type 0 where
  pub store : Store
  pub foreign_keys : Bool
  pub cache : Cache

unfoldable pub files_only : List IndexEntry → List IndexEntry
files_only [] = []
files_only (e ∷ entries) = if e.is_dir then files_only entries else e ∷ files_only entries

-- `sort_by_key`, by insertion: the documented effect of the stable sort.
unfoldable pub insert_entry : (String → ℕ) → IndexEntry → List IndexEntry → List IndexEntry
insert_entry depth e [] = e ∷ []
insert_entry depth e (f ∷ entries) =
    if leb (depth e.full_path) (depth f.full_path)
    then e ∷ f ∷ entries
    else f ∷ insert_entry depth e entries

unfoldable pub sort_by_depth : (String → ℕ) → List IndexEntry → List IndexEntry
unfolding insert_entry
sort_by_depth depth [] = []
sort_by_depth depth (e ∷ entries) = insert_entry depth e (sort_by_depth depth entries)

-- `chunks(size)`, of at most as many chunks as there are elements.
unfoldable pub chunks_of : ℕ → ℕ → List IndexEntry → List (List IndexEntry)
chunks_of size zero entries = []
chunks_of size (suc n) [] = []
chunks_of size (suc n) (e ∷ entries) =
    take size (e ∷ entries) ∷ chunks_of size n (drop size (e ∷ entries))

abbrev count_if : (IndexEntry → Bool) → List IndexEntry → ℕ
count_if p [] = 0
count_if p (e ∷ entries) = if p e then suc (count_if p entries) else count_if p entries

-- `i64::try_from(n).unwrap_or(i64::MAX)`, and `.ok()`.
abbrev pub clamped : ℕ → ℤ
clamped n = if ltb n (2 ^ 63) then pos n else pos 9223372036854775807

abbrev pub fitting : ℕ → Option ℤ
fitting n = if ltb n (2 ^ 63) then some (pos n) else none

module _ (c : PipelineConfig) (h : Hasher) (paths : Paths) where
  -- Later entries with a file number win.
  unfoldable pub fid_to_location_id : List IndexEntry → List (ℕ × String) → List (ℕ × String)
  fid_to_location_id [] m = m
  fid_to_location_id (e ∷ entries) m =
      fid_to_location_id entries
        (update ℕ_discrete e.fid (λ _. paths.location_id c.volume_id e.full_path) m)

  abbrev pub object_row : String → HashResult → IndexEntry → ObjectRow
  object_row now r e = record {
    id = h.show r.object_id;
    kind = if e.is_dir then "Directory" else "File";
    mime_type =
        if c.mime_detection
        then (if e.is_dir
            then none
            else mime_from_extension paths.to_lowercase (paths.extension e.full_path))
        else none;
    size_bytes = clamped e.size;
    created_at = now;
    updated_at = now;
    hash_state = if r.synthetic then (if e.is_dir then content else deferred) else content;
  }

  abbrev or_location_id : Option String → IndexEntry → String
  or_location_id none e = paths.location_id c.volume_id e.full_path
  or_location_id (some id) e = id

  abbrev pub location_row : List (ℕ × String) → String → HashResult → IndexEntry → LocationRow
  location_row ids now r e = record {
    id = or_location_id (get ℕ_discrete e.fid ids) e;
    object_id = h.show r.object_id;
    volume_id = c.volume_id;
    path = paths.lossy e.full_path;
    name = e.name_lossy;
    extension = paths.extension e.full_path;
    parent_id =
        if (e.parent_fid == no_parent_fid) || (e.parent_fid == e.fid)
        then none
        else get ℕ_discrete e.parent_fid ids;
    is_directory = e.is_dir;
    size_bytes = clamped e.size;
    allocated_bytes = clamped e.allocated_size;
    created_at = now;
    modified_at = paths.format e.modified_at;
    accessed_at = none;
    fid = fitting e.fid;
  }

  abbrev pub rows_of :
      List (ℕ × String)
      → String
      → HashResult
      → Option IndexEntry
      → List ObjectRow × List LocationRow
      → Option (List ObjectRow × List LocationRow)
  rows_of ids now r none rows = none
  rows_of ids now r (some e) (objects, locations) =
      some (object_row now r e ∷ objects, location_row ids now r e ∷ locations)

  -- The rows of a batch; an index out of bounds panics.
  unfoldable pub build_rows :
      List (ℕ × String)
      → String
      → List IndexEntry
      → List HashResult
      → Option (List ObjectRow × List LocationRow)
  build_rows ids now chunk [] = some ([], [])
  build_rows ids now chunk (r ∷ results) = do
    rows ← build_rows ids now chunk results
    rows_of ids now r (get_elem? chunk r.index) rows

  abbrev database_error : String
  database_error = "database"

  abbrev pub locations_done : Option Store × Bool → Index → Bool × Index
  locations_done (none, foreign_keys) i = (false, record i { foreign_keys = foreign_keys })
  locations_done (some t, foreign_keys) i =
      (true, record i { store = t; foreign_keys = foreign_keys })

  abbrev pub locations_upserted : List LocationRow → Option Store → Index → Bool × Index
  locations_upserted rows none i = (false, i)
  locations_upserted rows (some t) i =
      locations_done (upsert_locations_batch rows (t, i.foreign_keys)) (record i { store = t })

  -- The upserts of a batch, objects first, and whether they have succeeded.
  unfoldable pub upsert_rows : List ObjectRow × List LocationRow → Index → Bool × Index
  unfolding upsert_objects_batch upsert_locations_batch
  upsert_rows (objects, locations) i =
      locations_upserted locations (upsert_objects_batch objects i.store) i

  abbrev pub add_batch :
      List IndexEntry → BatchHashResult → PipelineBatchComplete → PipelineBatchComplete
  add_batch chunk r s = record s {
    hashed = s.hashed + r.hashed;
    cached = s.cached + r.cache_hits;
    deferred = s.deferred + r.deferred;
    skipped = s.skipped + r.skipped;
    errors = s.errors + length r.errors;
    directories = s.directories + count_if (λ e. e.is_dir) chunk;
    zero_byte = s.zero_byte + count_if (λ e. if e.is_dir then false else e.size == 0) chunk;
  }

  abbrev pub with_totals :
      List IndexEntry
      → BatchHashResult
      → PipelineBatchComplete
      → Bool × Index
      → Bool × (Index × PipelineBatchComplete)
  with_totals chunk r stats (done, i) = (done, (i, add_batch chunk r stats))

  -- The rows and the upserts after the hashing.
  unfoldable pub store_batch :
      List (ℕ × String)
      → ℕ
      → List IndexEntry
      → BatchHashResult
      → Index
      → PipelineBatchComplete
      → Option (Bool × (Index × PipelineBatchComplete))
  unfolding build_rows upsert_rows
  store_batch ids n chunk r i stats = do
    rows ← build_rows ids (paths.now n) chunk r.results
    some (with_totals chunk r stats (upsert_rows rows i))

  -- One round of the loop: the hashing, the rows, the upserts. An error of the upserts leaves the
  -- loop with the tables as they are.
  unfoldable pub run_chunk :
      List (ℕ × String)
      → ℕ
      → List IndexEntry
      → Index
      → PipelineBatchComplete
      → Option (Bool × (Index × PipelineBatchComplete))
  unfolding hash_entries_batch store_batch
  run_chunk ids n chunk i stats =
      let (r, cache) = hash_entries_batch h c.volume_id c.defer_content_hashing chunk i.cache in
      store_batch ids n chunk r (record i { cache = cache }) stats

  abbrev pub unless_failed :
      Index
      → Option (Result String PipelineBatchComplete × Index)
      → Bool
      → Option (Result String PipelineBatchComplete × Index)
  unless_failed i rest true = rest
  unless_failed i rest false = some (err database_error, i)

  unfoldable pub process_chunks :
      List (ℕ × String)
      → ℕ
      → List (List IndexEntry)
      → Index
      → PipelineBatchComplete
      → Option (Result String PipelineBatchComplete × Index)
  unfolding run_chunk
  process_chunks ids n [] i stats = some (ok stats, i)
  process_chunks ids n (chunk ∷ chunks) i stats = do
    (done, (j, next)) ← run_chunk ids n chunk i stats
    unless_failed j (process_chunks ids (suc n) chunks j next) done

  abbrev pub empty_batch : ℕ → PipelineBatchComplete
  empty_batch total = record {
    total = total;
    hashed = 0;
    cached = 0;
    deferred = 0;
    skipped = 0;
    errors = 0;
    directories = 0;
    zero_byte = 0;
  }

  unfoldable pub working_entries : List IndexEntry → List IndexEntry
  unfolding files_only sort_by_depth
  working_entries entries =
      sort_by_depth paths.depth (if c.skip_directories then files_only entries else entries)

  unfoldable pub process_entries :
      List IndexEntry → Index → Option (Result String PipelineBatchComplete × Index)
  unfolding working_entries chunks_of fid_to_location_id process_chunks
  process_entries [] i = some (ok (empty_batch 0), i)
  process_entries (e ∷ entries) i =
      if c.batch_size == 0
      then none
      else process_chunks (fid_to_location_id (e ∷ entries) []) 0
          (chunks_of c.batch_size (length (working_entries (e ∷ entries)))
            (working_entries (e ∷ entries)))
          i (empty_batch (length (e ∷ entries)))
