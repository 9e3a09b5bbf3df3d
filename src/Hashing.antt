-- ===== src/Hashing.antt =====
-- crates/object-pipeline/src/hasher.rs: the batch hashing of index entries, with the inode cache of
-- core/src/db/cache.rs before it. An `ObjectId` is the number of its bytes. The hash functions, the
-- file system and the texts of keys and identifiers are parameters.
pub mod Batch
pub mod Background
pub mod Indices
mod Tests
use hypr_drive.Prelude.{
  ℕ, suc, ◌+◌, Bool, true, false, Option, some, none, String, List, [], ◌∷◌, ◌++◌, map, replicate,
  length, set, ◌==◌, if◌then◌else◌,
}
use hypr_drive.Prelude.Int.{ℤ}
use hypr_drive.Prelude.Text.{String_discrete}
use hypr_drive.Prelude.HashMap.{get, update}
use hypr_drive.Prelude.Results.{Result, ok, err}
use hypr_drive.Changes.{IndexEntry}

-- The inode cache: its table, if it is there yet, and whether reads and writes work.
pub record Cache : Type 0 where
  pub table : Option (List (String × String))
  pub readable : Bool
  pub writable : Bool

abbrev rows_of : Option (List (String × String)) → List (String × String)
rows_of none = []
rows_of (some rows) = rows

abbrev find_all : Option (List (String × String)) → List String → List (Option String)
find_all none keys = replicate (length keys) none
find_all (some rows) keys = map (λ key. get String_discrete key rows) keys

-- `inode::get_batch`
unfoldable pub get_batch : Cache → List String → Result String (List (Option String))
get_batch cache [] = ok []
get_batch cache keys = if cache.readable then ok (find_all cache.table keys) else err "read"

unfoldable pub insert_all : List (String × String) → List (String × String) → List (String × String)
insert_all [] rows = rows
insert_all ((key, id) ∷ entries) rows =
    insert_all entries (update String_discrete key (λ _. id) rows)

-- `inode::insert_batch`: a transaction that fails changes nothing.
unfoldable pub insert_batch : List (String × String) → Cache → Result String Cache
insert_batch [] cache = ok cache
insert_batch entries cache =
    if cache.writable
    then ok (record cache { table = some (insert_all entries (rows_of cache.table)) })
    else err "write"

pub record HashResult : Type 0 where
  pub index : ℕ
  pub object_id : ℕ
  pub cached : Bool
  pub synthetic : Bool

pub record BatchHashResult : Type 0 where
  pub results : List HashResult
  pub cache_hits : ℕ
  pub hashed : ℕ
  pub deferred : ℕ
  pub skipped : ℕ
  pub errors : List (ℕ × String)

-- What the hashing calls: the key of an entry in the cache (`cache_key_v2`), the synthetic
-- identifiers of a directory and of a deferred file, BLAKE3 of nothing, `hash_file`, `is_dir`, and
-- the text of an identifier and its parser.
pub record Hasher : Type 0 where
  pub cache_key : String → ℕ → ℤ → ℕ → String
  pub directory_id : String → ℕ
  pub synthetic_file_object_id : String → ℕ → ℤ → ℕ → ℕ
  pub empty_id : ℕ
  pub hash_file : String → Result String ℕ
  pub path_is_dir : String → Bool
  pub parse : String → Option ℕ
  pub show : ℕ → String

-- An element of `results` while the batch is on: a result, or `Err(i)`.
pub data Slot : Type 0 where
  filled : HashResult → Slot
  placeholder : ℕ → Slot

-- The counters and the lists that the last loop fills.
pub record Totals : Type 0 where
  pub hashed : ℕ
  pub deferred : ℕ
  pub skipped : ℕ
  pub errors : List (ℕ × String)
  pub new_cache_entries : List (String × String)

abbrev pub no_totals : Totals
no_totals = record { hashed = 0; deferred = 0; skipped = 0; errors = []; new_cache_entries = [] }

abbrev pub first : List (Option String) → Option String
first [] = none
first (v ∷ vs) = v

abbrev pub rest : List (Option String) → List (Option String)
rest [] = []
rest (v ∷ vs) = vs

module _ (h : Hasher) (volume_id : String) (defer : Bool) where
  abbrev pub key_of : IndexEntry → String
  key_of e = h.cache_key volume_id e.fid e.modified_at.secs e.size

  abbrev pub hit : ℕ → Option ℕ → Option HashResult
  hit i none = none
  hit i (some id) = some (record { index = i; object_id = id; cached = true; synthetic = false })

  abbrev pub parsed : Option String → Option ℕ
  parsed none = none
  parsed (some hex) = h.parse hex

  -- The result of an entry that needs no hashing: a directory, or a cache hit that can be parsed.
  unfoldable pub known : ℕ → IndexEntry → Option String → Option HashResult
  known i e cached =
      if e.is_dir
      then some (record {
        index = i;
        object_id = h.directory_id e.full_path;
        cached = false;
        synthetic = true;
      })
      else hit i (parsed cached)

  abbrev pub is_hit : IndexEntry → Option HashResult → ℕ
  is_hit e none = 0
  is_hit e (some _) = if e.is_dir then 0 else 1

  abbrev pub slot_of : ℕ → Option HashResult → Slot
  slot_of i none = placeholder i
  slot_of i (some r) = filled r

  abbrev pub needed :
      ℕ → IndexEntry → Option HashResult → List (ℕ × IndexEntry) → List (ℕ × IndexEntry)
  needed i e none needs = (i, e) ∷ needs
  needed i e (some _) needs = needs

  -- The first loop: the slots, the indices that need hashing, with their entries, and the number
  -- of cache hits. The cached values are read along with the entries.
  unfoldable pub classify :
      ℕ → List IndexEntry → List (Option String) → List Slot × List (ℕ × IndexEntry) × ℕ
  classify i [] cached = ([], [], 0)
  classify i (e ∷ entries) cached =
      let (slots, needs, hits) = classify (suc i) entries (rest cached) in
      let r = known i e (first cached) in
      (slot_of i r ∷ slots, needed i e r needs, is_hit e r + hits)

  abbrev content_of : Result String ℕ → Result String (ℕ × Bool)
  content_of (ok id) = ok (id, false)
  content_of (err message) = err message

  -- The hash of one entry: its identifier, and whether that is deferred.
  unfoldable pub hash_one : IndexEntry → Result String (ℕ × Bool)
  hash_one e =
      if e.size == 0
      then ok (h.empty_id, false)
      else if h.path_is_dir e.full_path
      then err "entry is a directory"
      else if defer
      then ok (h.synthetic_file_object_id volume_id e.fid e.modified_at.secs e.size, true)
      else content_of (h.hash_file e.full_path)

  abbrev pub fresh_result : ℕ → ℕ × Bool → HashResult
  fresh_result i (id, is_deferred) = record {
    index = i;
    object_id = id;
    cached = false;
    synthetic = is_deferred;
  }

  -- What the last loop does with one result, on the slots and on the rest.
  abbrev pub fill : ℕ → Result String (ℕ × Bool) → List Slot → List Slot
  fill i (ok found) slots = set slots i (filled (fresh_result i found))
  fill i (err _) slots = slots

  abbrev pub count : ℕ → IndexEntry → Result String (ℕ × Bool) → Totals → Totals
  count i e (ok (id, true)) t = record t { deferred = suc t.deferred }
  count i e (ok (id, false)) t = record t {
    hashed = suc t.hashed;
    new_cache_entries = t.new_cache_entries ++ (key_of e, h.show id) ∷ [];
  }
  count i e (err message) t = record t {
    skipped = suc t.skipped;
    errors = t.errors ++ (i, message) ∷ [];
  }

  unfoldable pub collect : List (ℕ × IndexEntry) → List Slot → Totals → List Slot × Totals
  unfolding hash_one
  collect [] slots t = (slots, t)
  collect ((i, e) ∷ needs) slots t =
      collect needs (fill i (hash_one e) slots) (count i e (hash_one e) t)

  abbrev pub cached_or_none :
      List IndexEntry → Result String (List (Option String)) → List (Option String)
  cached_or_none entries (ok values) = values
  cached_or_none entries (err _) = replicate (length entries) none

  abbrev or_same : Result String Cache → Cache → Cache
  or_same (ok cache) _ = cache
  or_same (err _) cache = cache

  -- `results.into_iter().filter_map(|r| r.ok())`
  unfoldable pub filled_only : List Slot → List HashResult
  filled_only [] = []
  filled_only (filled r ∷ slots) = r ∷ filled_only slots
  filled_only (placeholder _ ∷ slots) = filled_only slots

  abbrev pub batch_result : ℕ → List Slot × Totals → BatchHashResult
  batch_result hits (slots, t) = record {
    results = filled_only slots;
    cache_hits = hits;
    hashed = t.hashed;
    deferred = t.deferred;
    skipped = t.skipped;
    errors = t.errors;
  }

  unfoldable pub hash_entries_batch : List IndexEntry → Cache → BatchHashResult × Cache
  hash_entries_batch [] cache = (batch_result 0 ([], no_totals), cache)
  hash_entries_batch entries cache =
      let cached = cached_or_none entries (get_batch cache (map key_of entries)) in
      let (slots, needs, hits) = classify 0 entries cached in
      let collected = collect needs slots no_totals in
      (
        batch_result hits collected,
        or_same (insert_batch collected.1.new_cache_entries cache) cache,
      )
