-- ===== src/Pipeline/Tests.antt =====
-- A run of `process_entries` of crates/object-pipeline/src/pipeline.rs, and its theorem there.
use hypr_drive.Prelude.{
  ℕ, zero, suc, ◌≡◌, ◌<◌, refl, Bool, true, false, Option, some, none, String, List, [], ◌∷◌, arith,
  ℕ_discrete,
}
use hypr_drive.Prelude.Int.{pos}
use hypr_drive.Prelude.HashMap.{get, update}
use hypr_drive.Prelude.Results.{Result, ok}
use hypr_drive.Changes.{IndexEntry}
use hypr_drive.Hashing.{
  Hasher, get_batch, insert_all, insert_batch, known, classify, hash_one, collect, filled_only,
  hash_entries_batch,
}
use hypr_drive.Store.{LocationRow, at_path}
use hypr_drive.Store.Rows.{exists}
use hypr_drive.Store.Upserts.{
  upsert_object, insert_location, upsert_objects_batch, insert_locations, upsert_locations_batch,
}
use hypr_drive.Store.Deletes.{lookup_location_by_path}
use hypr_drive.Pipeline.Mime.{mime_of}
use hypr_drive.Pipeline.{
  PipelineConfig, PipelineBatchComplete, Paths, Index, files_only, insert_entry, sort_by_depth,
  chunks_of, fid_to_location_id, build_rows, upsert_rows, store_batch, run_chunk, process_chunks,
  working_entries, process_entries,
}
use hypr_drive.Pipeline.Owned.{IsOwned}
use hypr_drive.Pipeline.Batches.{process_entries-IsOwned}

abbrev config : PipelineConfig
config = record {
  volume_id = "v";
  batch_size = 1;
  skip_directories = false;
  mime_detection = true;
  defer_content_hashing = false;
}

abbrev shown : ℕ → String
shown zero = "empty"
shown (suc zero) = "dir"
shown (suc (suc n)) = "file"

abbrev hasher : Hasher
hasher = record {
  cache_key = λ volume fid mtime size. volume;
  directory_id = λ path. 1;
  synthetic_file_object_id = λ volume fid mtime size. 2;
  empty_id = 0;
  hash_file = λ path. ok 5;
  path_is_dir = λ path. false;
  parse = λ text. none;
  show = λ id. shown id;
}

abbrev depth : String → ℕ
depth path = elim (Prim.Native.String.compare path "/d") [ Prim.Native.Nat.Ordering.eq ↦ 1 | _ ↦ 2 ]

abbrev paths : Paths
paths = record {
  lossy = λ s. s;
  location_id = λ volume path. path;
  depth = depth;
  extension = λ path. some "MD";
  to_lowercase = λ text. "md";
  format = λ date. "t";
  now = λ n. "now";
}

abbrev entry : ℕ → ℕ → String → Bool → IndexEntry
entry fid parent path is_dir = record {
  fid = fid;
  parent_fid = parent;
  name = path;
  name_lossy = path;
  full_path = path;
  size = 3;
  allocated_size = 4;
  is_dir = is_dir;
  modified_at = record { secs = pos 0; nanos = 0 };
  attributes = 0;
}

-- The file comes first and belongs to the directory behind it.
abbrev entries : List IndexEntry
entries = entry 8 7 "/d/a" false ∷ entry 7 7 "/d" true ∷ []

abbrev index : Index
index = record {
  store = record { objects = []; locations = []; tags = []; tags_on_objects = []; cursors = [] };
  foreign_keys = true;
  cache = record { table = none; readable = true; writable = true };
}

index-IsOwned : IsOwned index.store
index-IsOwned = record {
  object_ids = tt;
  location_ids = tt;
  places = tt;
  junctions = tt;
  cursor_keys = tt;
  states = tt;
  owned = tt;
  parents = tt;
  tagged = tt;
  known_tags = tt;
}

program : Unit {0}
unfolding get update get_batch insert_all insert_batch known classify hash_one collect filled_only
    hash_entries_batch upsert_object insert_location upsert_objects_batch insert_locations
    upsert_locations_batch lookup_location_by_path mime_of files_only insert_entry sort_by_depth
    chunks_of fid_to_location_id build_rows upsert_rows store_batch run_chunk process_chunks
    working_entries process_entries ℕ_discrete
program = tt

parent_of : Option LocationRow → Option String
parent_of none = none
parent_of (some l) = l.parent_id

stored_parent : String → Option (Result String PipelineBatchComplete × Index) → Option String
stored_parent path none = none
stored_parent path (some (_, i)) = parent_of (lookup_location_by_path "v" path i.store)

found_parent : stored_parent "/d/a" (process_entries config hasher paths entries index) ≡ some "/d"
unfolding program parent_of stored_parent
found_parent = refl

some_entries : 0 < config.batch_size
some_entries = omega arith

process_entries-IsOwned_example :
    (r : Result String PipelineBatchComplete) × (j : Index) × (process_entries config hasher paths
        entries index
      ≡ some (r, j))
    × IsOwned j.store
process_entries-IsOwned_example =
    process_entries-IsOwned config hasher paths entries index some_entries index-IsOwned

-- Without directories the file still names the parent that is not stored.
abbrev files_config : PipelineConfig
files_config = record config { skip_directories = true }

missing_parent :
    stored_parent "/d/a" (process_entries files_config hasher paths entries index) ≡ some "/d"
unfolding program parent_of stored_parent
missing_parent = refl

is_stored : String → Option (Result String PipelineBatchComplete × Index) → Bool
is_stored path none = false
is_stored path (some (_, i)) = exists (at_path "v" path) i.store.locations

no_directory : is_stored "/d" (process_entries files_config hasher paths entries index) ≡ false
unfolding program is_stored
no_directory = refl
