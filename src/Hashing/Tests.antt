-- ===== src/Hashing/Tests.antt =====
-- A batch of crates/object-pipeline/src/hasher.rs at a concrete hasher and cache.
use hypr_drive.Prelude.{
  ℕ, ◌+◌, ◌≡◌, Bool, true, false, some, String, List, [], ◌∷◌, length, ◌==◌, if◌then◌else◌,
}
use hypr_drive.Prelude.Int.{pos}
use hypr_drive.Prelude.Text.{String_discrete}
use hypr_drive.Prelude.HashMap.{get, update}
use hypr_drive.Prelude.Results.{Result, ok, err}
use hypr_drive.Changes.{IndexEntry}
use hypr_drive.Hashing.{
  Cache, HashResult, Hasher, get_batch, insert_batch, insert_all, known, classify, hash_one,
  collect, filled_only, hash_entries_batch,
}
use hypr_drive.Hashing.Batch.{hash_entries_batch-each, hash_entries_batch-counts}

abbrev entry : ℕ → ℕ → Bool → String → IndexEntry
entry fid size is_dir path = record {
  fid = fid;
  parent_fid = 5;
  name = path;
  name_lossy = path;
  full_path = path;
  size = size;
  allocated_size = size;
  is_dir = is_dir;
  modified_at = record { secs = pos 0; nanos = 0 };
  attributes = 0;
}

-- Only /ok can be read; the text of every identifier is "hex", that of 77.
abbrev path_hash : String → Result String ℕ
path_hash path = elim (String_discrete path "/ok") [ yes _ ↦ ok 42 | no _ ↦ err "no such file" ]

abbrev key : ℕ → String
key fid = if fid == 3 then "three" else "other"

abbrev hasher : Hasher
hasher = record {
  cache_key = λ volume fid mtime size. key fid;
  directory_id = λ path. 1;
  synthetic_file_object_id = λ volume fid mtime size. 1000 + fid;
  empty_id = 0;
  hash_file = path_hash;
  path_is_dir = λ path. false;
  parse = λ hex. some 77;
  show = λ id. "hex";
}

abbrev cache : Cache
cache = record { table = some (("three", "hex") ∷ []); readable = true; writable = true }

-- A directory, a file that can be read, one in the cache, and one that is gone.
abbrev entries : List IndexEntry
entries =
    entry 1 0 true "/d"
    ∷ entry 2 9 false "/ok"
    ∷ entry 3 9 false "/c"
    ∷ entry 4 9 false "/gone"
    ∷ []

abbrev result : ℕ → ℕ → Bool → Bool → HashResult
result i id cached synthetic = record {
  index = i;
  object_id = id;
  cached = cached;
  synthetic = synthetic;
}

hash_entries_batch-each_example :
    (hash_entries_batch hasher "C" false entries cache).0.results
    ≡ result 0 1 false true ∷ result 1 42 false false ∷ result 2 77 true false ∷ []
unfolding get_batch known hash_one filled_only get
hash_entries_batch-each_example = hash_entries_batch-each hasher "C" false entries cache

hash_entries_batch-counts_example :
    (length (hash_entries_batch hasher "C" false entries cache).0.results + 1 ≡ 4)
    × (◌≡◌ {A = ℕ} 1 1)
    × (1 + 1 + 1 + 0 ≡ length (hash_entries_batch hasher "C" false entries cache).0.results)
unfolding hash_entries_batch get_batch known classify hash_one collect filled_only get insert_batch
    insert_all update
hash_entries_batch-counts_example = hash_entries_batch-counts hasher "C" false entries cache
