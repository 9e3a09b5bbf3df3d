-- ===== src/Store/Tests.antt =====
-- Runs of the queries of core/src/db/queries.rs, and their theorems at concrete tables.
use hypr_drive.Prelude.{
  ℕ, ◌≡◌, ◌↔◌, refl, Bool, true, false, Option, some, none, String, List, [], ◌∷◌,
}
use hypr_drive.Prelude.Int.{pos}
use hypr_drive.Prelude.Members.{In}
use hypr_drive.Store.{ObjectRow, LocationRow, TagRow, Store, delete_locations, delete_objects}
use hypr_drive.Store.Rows.{exists, count}
use hypr_drive.Store.Upserts.{
  upsert_object, insert_location, upsert_location, upsert_objects_batch, insert_locations,
  upsert_locations_batch, save_cursor, load_cursor,
}
use hypr_drive.Store.Deletes.{
  count_locations_for_object, lookup_location_by_path, delete_found, delete_location_by_fid,
  delete_location_by_path, is_orphan, delete_orphan_objects, insert_new, relocate_found,
  relocate_location,
}
use hypr_drive.Store.Deferred.{delete_old, upgrade_deferred_object, pending_hash_count}
use hypr_drive.Store.Tags.{add_tag, add_tags_batch, remove_tags_batch, tags_for_object}
use hypr_drive.Store.Consistent.{IsConsistent}
use hypr_drive.Store.Kept.{is_at}
use hypr_drive.Store.Spared.{exists-run_all}
use hypr_drive.Store.Commands.{
  Command, put_object, put_location, add_tags, upgrade, delete_orphans, run, run_all,
  run_all-IsConsistent,
}
use hypr_drive.Store.Orphans.{In-delete_orphan_objects}
use hypr_drive.Store.Upgraded.{IsUpgraded}
use hypr_drive.Store.Rehash.{upgrade_deferred_object-IsUpgraded}

program : Unit {0}
unfolding delete_locations delete_objects upsert_object insert_location upsert_location
    upsert_objects_batch insert_locations upsert_locations_batch save_cursor load_cursor
    count_locations_for_object lookup_location_by_path delete_found delete_location_by_fid
    delete_location_by_path delete_orphan_objects insert_new relocate_found relocate_location
    delete_old upgrade_deferred_object pending_hash_count add_tag add_tags_batch remove_tags_batch
    tags_for_object run run_all
program = tt

abbrev object : String → String → ObjectRow
object id state = record {
  id = id;
  kind = "File";
  mime_type = none;
  size_bytes = pos 3;
  created_at = "t0";
  updated_at = "t0";
  hash_state = state;
}

abbrev location : String → String → String → Option String → ℕ → LocationRow
location id object_id path parent fid = record {
  id = id;
  object_id = object_id;
  volume_id = "v";
  path = path;
  name = path;
  extension = none;
  parent_id = parent;
  is_directory = false;
  size_bytes = pos 3;
  allocated_bytes = pos 4;
  created_at = "t0";
  modified_at = "t0";
  accessed_at = none;
  fid = some (pos fid);
}

abbrev tag : TagRow
tag = record { id = "red"; name = "Red"; color = none; parent_id = none }

abbrev start : Store
start = record { objects = []; locations = []; tags = tag ∷ []; tags_on_objects = []; cursors = [] }

start-IsConsistent : IsConsistent start
start-IsConsistent = record {
  object_ids = tt;
  location_ids = tt;
  places = tt;
  junctions = tt;
  cursor_keys = tt;
  states = tt;
  owned = tt;
  parents = tt;
  tagged = tt;
  known_tags = tt;
}

-- A directory with two files, one of them deferred and tagged.
abbrev commands : List Command
commands =
    put_object (object "dir" "content")
    ∷ put_object (object "s1" "deferred")
    ∷ put_object (object "c1" "content")
    ∷ put_location (location "D" "dir" "/d" none 1)
    ∷ put_location (location "A" "s1" "/d/a" (some "D") 2)
    ∷ put_location (location "B" "c1" "/d/b" (some "D") 3)
    ∷ add_tags "red" ("s1" ∷ [])
    ∷ []

abbrev filled : Store
filled = run_all commands start

three_rows : count (λ _. true) filled.locations ≡ 3
unfolding program
three_rows = refl

-- A location of an object that is not there is refused, and so is a third state of a hash.
refused : upsert_location (location "C" "c9" "/d/c" none 4) filled ≡ none
unfolding program
refused = refl

refused_state : upsert_object (object "c2" "half") filled ≡ none
unfolding program
refused_state = refl

-- On the connection of the batch the same location is taken; a second row of one id is not, and
-- leaves the connection without foreign keys.
batch_ends : (upsert_locations_batch (location "A" "s1" "/e" none 5 ∷ []) (filled, true)).1 ≡ false
unfolding program
batch_ends = refl

-- The files of a directory that is moved have no parent any more.
parent_at : String → Option (Bool × Store) → Option String
parent_at path none = none
parent_at path (some (_, t)) = parent_of (lookup_location_by_path "v" path t)
  where
    parent_of : Option LocationRow → Option String
    parent_of none = none
    parent_of (some l) = l.parent_id

moved_directory :
    parent_at "/d/a" (relocate_location "v" (pos 1) "E" "/e" "e" none none filled) ≡ none
unfolding program parent_at
moved_directory = refl

-- The tags of a deferred object are gone after its upgrade.
tags_after : Option (Bool × Store) → ℕ
tags_after none = 9
tags_after (some (_, t)) = count (λ _. true) t.tags_on_objects

lost_tag : tags_after (upgrade_deferred_object "t1" "s1" "c2" filled) ≡ 0
unfolding program tags_after
lost_tag = refl

-- The upgrade of the tagged file, and a deletion of orphans that names the objects of the others.
abbrev upkeep : List Command
upkeep = upgrade "t1" "s1" "c2" ∷ delete_orphans ("c1" ∷ "dir" ∷ []) ∷ []

exists-run_all_example :
    IsConsistent (run_all upkeep filled)
    × (exists (is_at "A" "v" "/d/a") (run_all upkeep filled).locations ≡ true)
unfolding program
exists-run_all_example =
    exists-run_all upkeep filled "A" "v" "/d/a"
      (run_all-IsConsistent commands start start-IsConsistent) (refl, (refl, tt)) refl

In-delete_orphan_objects_example :
    ((delete_orphan_objects ("c1" ∷ "dir" ∷ []) filled).1.locations ≡ filled.locations)
    × ((delete_orphan_objects ("c1" ∷ "dir" ∷ []) filled).0
        ≡ count (is_orphan ("c1" ∷ "dir" ∷ []) filled) filled.objects)
    × ((o : ObjectRow)
        → In o (delete_orphan_objects ("c1" ∷ "dir" ∷ []) filled).1.objects
          ↔ In o filled.objects × (is_orphan ("c1" ∷ "dir" ∷ []) filled o ≡ false))
In-delete_orphan_objects_example = In-delete_orphan_objects ("c1" ∷ "dir" ∷ []) filled

upgrade_deferred_object-IsUpgraded_example :
    (u : Store) × (upgrade_deferred_object "t1" "s1" "c2" filled ≡ some (true, u))
    × IsUpgraded "s1" "c2" filled u
unfolding program
upgrade_deferred_object-IsUpgraded_example =
    upgrade_deferred_object-IsUpgraded "t1" "s1" "c2" filled (object "s1" "deferred")
      (run_all-IsConsistent commands start start-IsConsistent) refl refl refl
