-- ===== src/Hashing/Background.antt =====
-- crates/object-pipeline/src/background_hasher.rs: the task that gives deferred objects their real
-- hashes, on the tables of core/src/db and the inode cache. `none` is a run that is out of fuel.
-- Reading files, parsing dates and cancellation are parameters; a query fails only by a constraint.
pub mod Progress
pub mod Files
pub mod Complete
pub mod Readable
mod Tests
use hypr_drive.Prelude.{
  ℕ, zero, suc, ◌+◌, Bool, true, false, not, ◌&&◌, Option, some, none, String, List, [], ◌∷◌, ◌==◌,
  if◌then◌else◌, take,
}
use Prim.Native.Nat.{Ordering}
use hypr_drive.Prelude.Int.{ℤ, pos, negsuc}
use hypr_drive.Prelude.Results.{Result, ok, err}
use hypr_drive.Hashing.{Cache, Hasher, insert_batch}
use hypr_drive.Store.{ObjectRow, LocationRow, Store, deferred}
use hypr_drive.Store.Rows.{keep, same}
use hypr_drive.Store.Deferred.{upgrade_deferred_object}

pub record DeferredObjectRow : Type 0 where
  pub object_id : String
  pub path : String
  pub size_bytes : ℤ
  pub fid : Option ℤ
  pub modified_at : String
  pub volume_id : String

-- `MIN(l.path)`: SQLite takes the other columns from the row of the least path.
abbrev pub before : String → String → Bool
before s t = elim (Prim.Native.String.compare s t) [ Ordering.gt ↦ false | _ ↦ true ]

abbrev pub lesser : LocationRow → Option LocationRow → LocationRow
lesser l none = l
lesser l (some k) = if before l.path k.path then l else k

unfoldable pub least_path : List LocationRow → Option LocationRow
least_path [] = none
least_path (l ∷ locations) = some (lesser l (least_path locations))

abbrev pub group_of :
    ObjectRow → Option LocationRow → List DeferredObjectRow → List DeferredObjectRow
group_of o none rows = rows
group_of o (some l) rows =
    record {
      object_id = o.id;
      path = l.path;
      size_bytes = l.size_bytes;
      fid = l.fid;
      modified_at = l.modified_at;
      volume_id = l.volume_id;
    }
    ∷ rows

-- The groups of the join, one for each deferred object that has a location of a file. Their order
-- is not specified: here it is that of the objects.
unfoldable pub deferred_groups : List ObjectRow → List LocationRow → List DeferredObjectRow
unfolding least_path
deferred_groups [] locations = []
deferred_groups (o ∷ objects) locations =
    let rest = deferred_groups objects locations in
    if same o.hash_state deferred
    then group_of o (least_path (keep (λ l. same l.object_id o.id && not l.is_directory) locations))
        rest
    else rest

-- A negative LIMIT is none.
abbrev pub limited : {A : Type 0} → ℤ → List A → List A
limited (pos n) rows = take n rows
limited (negsuc _) rows = rows

unfoldable pub fetch_deferred_batch : ℤ → Store → List DeferredObjectRow
unfolding deferred_groups
fetch_deferred_batch limit t = limited limit (deferred_groups t.objects t.locations)

pub record BackgroundHashResult : Type 0 where
  pub upgraded : ℕ
  pub errors : ℕ
  pub skipped : ℕ

abbrev pub nothing_hashed : BackgroundHashResult
nothing_hashed = record { upgraded = 0; errors = 0; skipped = 0 }

-- What the task shares with the others: the tables, the cache, and how often it has looked whether
-- it is cancelled.
pub record World : Type 0 where
  pub store : Store
  pub cache : Cache
  pub looks : ℕ

-- `cancelled n`: the answer to the n-th look; `now`: `datetime('now')`; `is_absolute` and
-- `parse_time` are `Path::is_absolute` and `NaiveDateTime::parse_from_str`, as a timestamp.
pub record Surroundings : Type 0 where
  pub cancelled : ℕ → Bool
  pub now : String
  pub is_absolute : String → Bool
  pub parse_time : String → Option ℤ

abbrev to_u64 : ℤ → Option ℕ
to_u64 (pos n) = some n
to_u64 (negsuc _) = none

abbrev size_of : ℤ → ℕ
size_of (pos n) = n
size_of (negsuc _) = 0

module _ (s : Surroundings) (h : Hasher) where
  abbrev or_same : Result String Cache → Cache → Cache
  or_same (ok cache) _ = cache
  or_same (err _) cache = cache

  -- `inode::insert`, if the row has a file number that fits and a date that can be parsed. A
  -- failure is only logged.
  abbrev remember : DeferredObjectRow → String → Option ℕ → Option ℤ → Cache → Cache
  remember row id none mtime cache = cache
  remember row id (some fid) none cache = cache
  remember row id (some fid) (some mtime) cache =
      or_same
        (insert_batch ((h.cache_key row.volume_id fid mtime (size_of row.size_bytes), id) ∷ [])
          cache)
        cache

  abbrev fid_of : Option ℤ → Option ℕ
  fid_of none = none
  fid_of (some fid) = to_u64 fid

  -- What the upgrade of one row has come to.
  unfoldable pub settle :
      DeferredObjectRow
      → String
      → Option (Bool × Store)
      → World × BackgroundHashResult
      → World × BackgroundHashResult
  unfolding insert_batch
  settle row id none (w, b) = (w, record b { errors = suc b.errors })
  settle row id (some (true, t)) (w, b) = (
    record w {
      store = t;
      cache = remember row id (fid_of row.fid) (s.parse_time row.modified_at) w.cache;
    },
    record b { upgraded = suc b.upgraded },
  )
  settle row id (some (false, t)) (w, b) =
      (record w { store = t }, record b { skipped = suc b.skipped })

  unfoldable pub upgrade_row :
      DeferredObjectRow
      → Result String ℕ
      → World × BackgroundHashResult
      → World × BackgroundHashResult
  unfolding settle upgrade_deferred_object
  upgrade_row row (err _) (w, b) = (w, record b { errors = suc b.errors })
  upgrade_row row (ok id) (w, b) =
      settle row (h.show id) (upgrade_deferred_object s.now row.object_id (h.show id) w.store)
        (w, b)

  unfoldable pub process_row :
      DeferredObjectRow → World × BackgroundHashResult → World × BackgroundHashResult
  unfolding upgrade_row
  process_row row (w, b) =
      if s.is_absolute row.path
      then upgrade_row row (h.hash_file row.path) (w, b)
      else (w, record b { errors = suc b.errors })

  abbrev pub look : World → World
  look w = record w { looks = suc w.looks }

  -- The loop on the rows of one batch, which looks for a cancellation before each.
  unfoldable pub process_rows :
      List DeferredObjectRow → World × BackgroundHashResult → World × BackgroundHashResult
  unfolding process_row
  process_rows [] p = p
  process_rows (row ∷ rows) (w, b) =
      let rest = process_rows rows (process_row row (look w, b)) in
      if s.cancelled w.looks then (look w, b) else rest

  abbrev pub add_results : BackgroundHashResult → BackgroundHashResult → BackgroundHashResult
  add_results total b = record {
    upgraded = total.upgraded + b.upgraded;
    errors = total.errors + b.errors;
    skipped = total.skipped + b.skipped;
  }

  -- The rest of the loop, `again`, runs unless the batch has made no progress.
  abbrev pub after_batch :
      BackgroundHashResult
      → (World → BackgroundHashResult → Option (BackgroundHashResult × World))
      → World × BackgroundHashResult
      → Option (BackgroundHashResult × World)
  after_batch total again (w, b) =
      let rest = again w (add_results total b) in
      if b.upgraded == 0 then some (add_results total b, w) else rest

  unfoldable pub after_fetch :
      BackgroundHashResult
      → World
      → (World → BackgroundHashResult → Option (BackgroundHashResult × World))
      → List DeferredObjectRow
      → Option (BackgroundHashResult × World)
  unfolding process_rows
  after_fetch total w again [] = some (total, w)
  after_fetch total w again (row ∷ rows) =
      after_batch total again (process_rows (row ∷ rows) (w, nothing_hashed))

  unfoldable pub background_loop :
      ℤ → ℕ → World → BackgroundHashResult → Option (BackgroundHashResult × World)
  unfolding after_fetch fetch_deferred_batch
  background_loop batch_size zero w total = none
  background_loop batch_size (suc fuel) w total =
      let again = background_loop batch_size fuel in
      if s.cancelled w.looks
      then some (total, look w)
      else after_fetch total (look w) again (fetch_deferred_batch batch_size w.store)

  unfoldable pub run_background_hasher : ℤ → ℕ → World → Option (BackgroundHashResult × World)
  unfolding background_loop
  run_background_hasher batch_size fuel w = background_loop batch_size fuel w nothing_hashed
