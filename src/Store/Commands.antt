-- ===== src/Store/Commands.antt =====
-- The queries of core/src/db/queries.rs that change the tables and check the foreign keys, as the
-- steps of a run. `upsert_locations_batch`, which does not check them, is not among them.
use hypr_drive.Prelude.{
  refl, Bool, Option, some, none, String, List, [], ◌∷◌, Bool-cases, inl, inr, ◌>>=◌,
}
use hypr_drive.Prelude.Int.{ℤ}
use hypr_drive.Store.Rows.{exists, same}
use hypr_drive.Store.Rows.Unique.{Unique-update_where, Unique-snoc}
use hypr_drive.Store.{ObjectRow, LocationRow, Store, at_path, at_fid, delete_locations}
use hypr_drive.Store.Upserts.{upsert_object, upsert_location, upsert_objects_batch, save_cursor}
use hypr_drive.Store.Deletes.{
  delete_found, delete_location_by_fid, delete_location_by_path, delete_orphan_objects, is_orphan,
  insert_new, relocated, moved, relocate_found, relocate_location,
}
use hypr_drive.Store.Deferred.{upgrade_deferred_object}
use hypr_drive.Store.Tags.{add_tags_batch, remove_tags_batch}
use hypr_drive.Store.Consistent.{
  IsConsistent, delete_locations-IsConsistent, delete_objects-IsConsistent,
}
use hypr_drive.Store.Preserved.{Good, fresh, upsert_object-Good}
use hypr_drive.Store.Upgrade.{store_of, upgrade_deferred_object-Good}
use hypr_drive.Store.Junctions.{add_tags_batch-Good, remove_tags_batch-IsConsistent}
use hypr_drive.Store.Locations.{upsert_location-Good, insert_new-Good}

pub data Command : Type 0 where
  put_object : ObjectRow → Command
  put_objects : List ObjectRow → Command
  put_location : LocationRow → Command
  put_cursor : String → String → String → Command
  delete_by_fid : String → ℤ → Command
  delete_by_path : String → String → Command
  delete_orphans : List String → Command
  relocate : String → ℤ → String → String → String → Option String → Option String → Command
  upgrade : String → String → String → Command
  add_tags : String → List String → Command
  remove_tags : String → List String → Command

unfoldable pub run : Command → Store → Option Store
unfolding upsert_object upsert_objects_batch upsert_location save_cursor delete_location_by_fid
    delete_location_by_path delete_orphan_objects relocate_location upgrade_deferred_object
    add_tags_batch remove_tags_batch
run (put_object row) t = upsert_object row t
run (put_objects rows) t = upsert_objects_batch rows t
run (put_location row) t = upsert_location row t
run (put_cursor now key json) t = some (save_cursor now key json t)
run (delete_by_fid volume_id fid) t = some (delete_location_by_fid volume_id fid t).1
run (delete_by_path volume_id path) t = some (delete_location_by_path volume_id path t).1
run (delete_orphans ids) t = some (delete_orphan_objects ids t).1
run (relocate volume_id fid id path name extension parent) t =
    store_of (relocate_location volume_id fid id path name extension parent t)
run (upgrade now old_id new_id) t = store_of (upgrade_deferred_object now old_id new_id t)
run (add_tags tag ids) t = store_of (add_tags_batch tag ids t)
run (remove_tags tag ids) t = some (remove_tags_batch tag ids t).1

-- A refused transaction is rolled back.
abbrev pub or_else : Option Store → Store → Store
or_else none t = t
or_else (some u) t = u

unfoldable pub run_all : List Command → Store → Store
unfolding run
run_all [] t = t
run_all (c ∷ commands) t = run_all commands (or_else (run c t) t)

abbrev pub empty : Store
empty = record { objects = []; locations = []; tags = []; tags_on_objects = []; cursors = [] }

Good-bind :
    (m : Option Store) (f : Store → Option Store)
    → Good m
    → ((t : Store) → IsConsistent t → Good (f t))
    → Good (m >>= f)
Good-bind none f g h = tt
Good-bind (some t) f g h = h t g

upsert_objects_batch-Good :
    (rows : List ObjectRow) (t : Store) → IsConsistent t → Good (upsert_objects_batch rows t)
unfolding upsert_objects_batch
upsert_objects_batch-Good [] t c = c
upsert_objects_batch-Good (row ∷ rows) t c =
    Good-bind (upsert_object row t) (upsert_objects_batch rows) (upsert_object-Good row t c)
      (upsert_objects_batch-Good rows)

save_cursor-IsConsistent :
    (now key json : String) (t : Store) → IsConsistent t → IsConsistent (save_cursor now key json t)
unfolding save_cursor
save_cursor-IsConsistent now key json t c =
    elim (Bool-cases (exists (λ r. same r.volume_key key) t.cursors)) [
      | inl h ↦ rw h (record {
        object_ids = c.object_ids;
        location_ids = c.location_ids;
        places = c.places;
        junctions = c.junctions;
        cursor_keys =
            Unique-update_where (λ r. r.volume_key) (λ r. same r.volume_key key)
              (λ r. record r { cursor_json = json; updated_at = now }) (λ _. refl) t.cursors
              c.cursor_keys;
        states = c.states;
        owned = c.owned;
        parents = c.parents;
        tagged = c.tagged;
        known_tags = c.known_tags;
      })
      | inr n ↦ rw n (record {
        object_ids = c.object_ids;
        location_ids = c.location_ids;
        places = c.places;
        junctions = c.junctions;
        cursor_keys =
            Unique-snoc (λ r. r.volume_key) t.cursors _ (fresh (λ r. r.volume_key) key t.cursors n)
              c.cursor_keys;
        states = c.states;
        owned = c.owned;
        parents = c.parents;
        tagged = c.tagged;
        known_tags = c.known_tags;
      })
    ]

delete_found-IsConsistent :
    (p : LocationRow → Bool) (o : Option LocationRow) (t : Store)
    → IsConsistent t
    → IsConsistent (delete_found p o t).1
unfolding delete_found
delete_found-IsConsistent p none t c = c
delete_found-IsConsistent p (some row) t c = delete_locations-IsConsistent p t c

delete_orphan_objects-IsConsistent :
    (ids : List String) (t : Store) → IsConsistent t → IsConsistent (delete_orphan_objects ids t).1
unfolding delete_orphan_objects
delete_orphan_objects-IsConsistent [] t c = c
delete_orphan_objects-IsConsistent (id ∷ ids) t c =
    delete_objects-IsConsistent (is_orphan (id ∷ ids) t) t c

moved-Good : (m : Option Store) → Good m → Good (store_of (moved m))
moved-Good none g = tt
moved-Good (some t) g = g

relocate_found-Good :
    (p : LocationRow → Bool) (change : LocationRow → LocationRow) (o : Option LocationRow)
    (t : Store)
    → IsConsistent t
    → Good (store_of (relocate_found p change o t))
unfolding relocate_found
relocate_found-Good p change none t c = c
relocate_found-Good p change (some row) t c =
    moved-Good (insert_new (change row) (delete_locations p t))
      (insert_new-Good (change row) (delete_locations p t) (delete_locations-IsConsistent p t c))

pub run-Good : (command : Command) (t : Store) → IsConsistent t → Good (run command t)
unfolding run
run-Good (put_object row) t c = upsert_object-Good row t c
run-Good (put_objects rows) t c = upsert_objects_batch-Good rows t c
run-Good (put_location row) t c = upsert_location-Good row t c
run-Good (put_cursor now key json) t c = save_cursor-IsConsistent now key json t c
run-Good (delete_by_fid volume_id fid) t c =
    unfold delete_location_by_fid in delete_found-IsConsistent (at_fid volume_id fid) _ t c
run-Good (delete_by_path volume_id path) t c =
    unfold delete_location_by_path in delete_found-IsConsistent (at_path volume_id path) _ t c
run-Good (delete_orphans ids) t c = delete_orphan_objects-IsConsistent ids t c
run-Good (relocate volume_id fid id path name extension parent) t c =
    unfold relocate_location in
    relocate_found-Good (at_fid volume_id fid) (relocated id path name extension parent) _ t c
run-Good (upgrade now old_id new_id) t c = upgrade_deferred_object-Good now old_id new_id t c
run-Good (add_tags tag ids) t c = add_tags_batch-Good tag ids t c
run-Good (remove_tags tag ids) t c = remove_tags_batch-IsConsistent tag ids t c

-- From tables that satisfy the constraints every sequence of the queries, with the refused ones
-- rolled back, ends in tables that satisfy them: the ids, the places of the locations, the pairs of
-- tags and objects and the keys of the cursors are unique, each location has its object and each
-- parent its row, the tags are on objects and of tags that exist, and each hash state is one of the
-- two.
pub run_all-IsConsistent :
    (commands : List Command) (t : Store) → IsConsistent t → IsConsistent (run_all commands t)
unfolding run_all
run_all-IsConsistent [] t c = c
run_all-IsConsistent (command ∷ commands) t c =
    run_all-IsConsistent commands (or_else (run command t) t)
      (kept (run command t) (run-Good command t c))
  where
    kept : (m : Option Store) → Good m → IsConsistent (or_else m t)
    kept none g = c
    kept (some u) g = g
