-- ===== src/Store/Deletes.antt =====
-- core/src/db/queries.rs: the deletions of locations and of objects without one, and the
-- relocation. Where several rows match a SELECT of one row, the first of them is taken.
use hypr_drive.Prelude.{
  ℕ, Bool, true, false, not, ◌&&◌, Option, some, none, String, List, [], ◌∷◌, ◌++◌, if◌then◌else◌,
}
use hypr_drive.Prelude.Int.{ℤ}
use hypr_drive.Store.Rows.{exists, first_where, count, same}
use hypr_drive.Store.{
  ObjectRow, LocationRow, Store, has_object, has_location, is_parent, at_path, at_fid,
  delete_locations, delete_objects,
}

unfoldable pub count_locations_for_object : String → Store → ℕ
count_locations_for_object object_id t = count (λ l. same l.object_id object_id) t.locations

unfoldable pub lookup_location_by_path : String → String → Store → Option LocationRow
lookup_location_by_path volume_id path t = first_where (at_path volume_id path) t.locations

-- The SELECT found a row, or did not.
unfoldable pub delete_found :
    (LocationRow → Bool) → Option LocationRow → Store → Option String × Store
unfolding delete_locations
delete_found p none t = (none, t)
delete_found p (some row) t = (some row.object_id, delete_locations p t)

unfoldable pub delete_location_by_fid : String → ℤ → Store → Option String × Store
unfolding delete_found
delete_location_by_fid volume_id fid t =
    delete_found (at_fid volume_id fid) (first_where (at_fid volume_id fid) t.locations) t

unfoldable pub delete_location_by_path : String → String → Store → Option String × Store
unfolding delete_found
delete_location_by_path volume_id path t =
    delete_found (at_path volume_id path) (first_where (at_path volume_id path) t.locations) t

-- The WHERE clause: one of the ids, and no location.
abbrev pub is_orphan : List String → Store → ObjectRow → Bool
is_orphan object_ids t o =
    exists (λ id. same id o.id) object_ids && not (exists (λ l. same l.object_id o.id) t.locations)

unfoldable pub delete_orphan_objects : List String → Store → ℕ × Store
unfolding delete_objects
delete_orphan_objects [] t = (0, t)
delete_orphan_objects (id ∷ ids) t =
    (count (is_orphan (id ∷ ids) t) t.objects, delete_objects (is_orphan (id ∷ ids) t) t)

-- The plain INSERT of the relocation, with every constraint of the table.
unfoldable pub insert_new : LocationRow → Store → Option Store
insert_new row t =
    if has_object t.objects row.object_id
      && not (has_location t.locations row.id)
      && not (exists (at_path row.volume_id row.path) t.locations)
      && is_parent (row ∷ t.locations) row.parent_id
    then some (record t { locations = t.locations ++ row ∷ [] })
    else none

-- The row that is inserted: the old one with the new id, place, name and parent.
abbrev pub relocated :
    String → String → String → Option String → Option String → LocationRow → LocationRow
relocated new_location_id new_path new_name new_extension new_parent_id row = record row {
  id = new_location_id;
  path = new_path;
  name = new_name;
  extension = new_extension;
  parent_id = new_parent_id;
}

abbrev pub moved : Option Store → Option (Bool × Store)
moved none = none
moved (some t) = some (true, t)

unfoldable pub relocate_found :
    (LocationRow → Bool)
    → (LocationRow → LocationRow)
    → Option LocationRow
    → Store
    → Option (Bool × Store)
unfolding delete_locations insert_new
relocate_found p change none t = some (false, t)
relocate_found p change (some row) t = moved (insert_new (change row) (delete_locations p t))

unfoldable pub relocate_location :
    String
    → ℤ
    → String
    → String
    → String
    → Option String
    → Option String
    → Store
    → Option (Bool × Store)
unfolding relocate_found
relocate_location volume_id fid new_location_id new_path new_name new_extension new_parent_id t =
    relocate_found (at_fid volume_id fid)
      (relocated new_location_id new_path new_name new_extension new_parent_id)
      (first_where (at_fid volume_id fid) t.locations) t
