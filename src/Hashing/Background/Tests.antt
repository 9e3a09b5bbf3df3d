-- ===== src/Hashing/Background/Tests.antt =====
-- A run of crates/object-pipeline/src/background_hasher.rs on two deferred objects, one of which
-- cannot be read, and its theorem there.
use hypr_drive.Prelude.{
  ℕ, Bool, ◌≡◌, refl, true, false, ◌||◌, Option, some, none, String, [], ◌∷◌, arith, ◌<◌,
}
use hypr_drive.Prelude.Int.{pos}
use hypr_drive.Prelude.Results.{Result, ok, err}
use hypr_drive.Hashing.{Hasher, insert_batch, insert_all}
use hypr_drive.Store.{ObjectRow, LocationRow, delete_locations, delete_objects}
use hypr_drive.Store.Deferred.{delete_old, upgrade_deferred_object, pending_hash_count}
use hypr_drive.Hashing.Background.{
  least_path, deferred_groups, fetch_deferred_batch, BackgroundHashResult, World, Surroundings,
  settle, upgrade_row, process_row, process_rows, after_fetch, background_loop,
  run_background_hasher,
}
use hypr_drive.Store.Rows.{same}
use hypr_drive.Hashing.Background.Complete.{IsReady}
use hypr_drive.Hashing.Background.Readable.{IsReadable, run_background_hasher-Complete}
use hypr_drive.Hashing.Background.Progress.{Ended, run_background_hasher-Ended}

abbrev object : String → ObjectRow
object id = record {
  id = id;
  kind = "File";
  mime_type = none;
  size_bytes = pos 3;
  created_at = "t0";
  updated_at = "t0";
  hash_state = "deferred";
}

abbrev location : String → String → ℕ → LocationRow
location id path fid = record {
  id = path;
  object_id = id;
  volume_id = "v";
  path = path;
  name = path;
  extension = none;
  parent_id = none;
  is_directory = false;
  size_bytes = pos 3;
  allocated_bytes = pos 4;
  created_at = "t0";
  modified_at = "t0";
  accessed_at = none;
  fid = some (pos fid);
}

abbrev world : World
world = record {
  store = record {
    objects = object "s1" ∷ object "s2" ∷ [];
    locations = location "s1" "/a" 1 ∷ location "s2" "/b" 2 ∷ location "s1" "/c" 3 ∷ [];
    tags = [];
    tags_on_objects = [];
    cursors = [];
  };
  cache = record { table = none; readable = true; writable = true };
  looks = 0;
}

abbrev surroundings : Surroundings
surroundings = record {
  cancelled = λ n. false;
  now = "t1";
  is_absolute = λ path. true;
  parse_time = λ text. some (pos 7);
}

abbrev read : String → Result String ℕ
read path = elim (Prim.Native.String.compare path "/b") [
  | Prim.Native.Nat.Ordering.eq ↦ err "denied"
  | _ ↦ ok 5
]

abbrev hasher : Hasher
hasher = record {
  cache_key = λ volume fid mtime size. volume;
  directory_id = λ path. 0;
  synthetic_file_object_id = λ volume fid mtime size. 0;
  empty_id = 0;
  hash_file = read;
  path_is_dir = λ path. false;
  parse = λ text. none;
  show = λ id. "real";
}

counted : Option (BackgroundHashResult × World) → Option (ℕ × ℕ × ℕ)
counted none = none
counted (some (r, w)) = some (r.upgraded, r.errors, pending_hash_count w.store)

program : Unit {0}
unfolding least_path deferred_groups fetch_deferred_batch settle upgrade_row process_row
    process_rows after_fetch background_loop run_background_hasher insert_batch insert_all
    delete_locations delete_objects delete_old upgrade_deferred_object pending_hash_count counted
program = tt

-- The second round makes no progress, and is the last.
hashed : counted (run_background_hasher surroundings hasher (pos 10) 3 world) ≡ some (1, 2, 1)
unfolding program
hashed = refl

-- A batch of one that cannot be read ends the run, with the other object still deferred.
abbrev reversed : World
reversed = record world { store = record world.store { objects = object "s2" ∷ object "s1" ∷ [] } }

stuck : counted (run_background_hasher surroundings hasher (pos 1) 3 reversed) ≡ some (0, 1, 2)
unfolding program
stuck = refl

enough : pending_hash_count world.store < 3
unfolding program
enough = omega arith

run_background_hasher-Ended_example :
    Ended surroundings hasher
      (pending_hash_count world.store)
      (run_background_hasher surroundings hasher (pos 10) 3 world)
run_background_hasher-Ended_example =
    run_background_hasher-Ended surroundings hasher (pos 10) 3 world enough

-- One deferred object, at a path that can be read; other paths are relative, or cannot be read.
abbrev single : World
single = record world {
  store = record world.store { objects = object "s1" ∷ []; locations = location "s1" "/a" 1 ∷ [] };
}

abbrev rooted : Surroundings
rooted = record surroundings { is_absolute = λ path. same path "/a" || same path "/b" }

abbrev is_synthetic : String → Bool
is_synthetic id = same id "s1"

single-IsReady : IsReady is_synthetic (IsReadable rooted hasher is_synthetic) single.store
single-IsReady = record {
  consistent = record {
    object_ids = (tt, tt);
    location_ids = (tt, tt);
    places = (tt, tt);
    junctions = tt;
    cursor_keys = tt;
    states = (refl, tt);
    owned = (refl, tt);
    parents = (refl, tt);
    tagged = tt;
    known_tags = tt;
  };
  marked = (refl, tt);
  files = (λ _. (refl, (5, refl, refl)), tt);
}

single_enough : pending_hash_count single.store < 2
unfolding program
single_enough = omega arith

run_background_hasher-Complete_example :
    (r : BackgroundHashResult) × (v : World) × (run_background_hasher rooted hasher (pos 1) 2 single
      ≡ some (r, v))
    × (fetch_deferred_batch (pos 1) v.store ≡ [])
run_background_hasher-Complete_example =
    run_background_hasher-Complete rooted hasher is_synthetic 0 2 single (λ k. refl) single-IsReady
      single_enough
