-- ===== src/Store/Upserts.antt =====
-- core/src/db/queries.rs: the upserts of objects and locations, single and in batches, and the
-- cursors.
use hypr_drive.Prelude.{
  Bool, true, false, not, ◌&&◌, Option, some, none, String, List, [], ◌∷◌, ◌++◌, if◌then◌else◌,
  ◌>>=◌,
}
use hypr_drive.Store.Rows.{update_where, exists, first_where, same}
use hypr_drive.Store.{
  ObjectRow, LocationRow, CursorRow, Store, content, is_hash_state, has_object, has_location,
  is_parent, at_path,
}

abbrev pub coalesce : Option String → Option String → Option String
coalesce (some v) old = some v
coalesce none old = old

-- The `DO UPDATE SET` of an object.
abbrev pub merge_object : ObjectRow → ObjectRow → ObjectRow
merge_object row old = record old {
  mime_type = coalesce row.mime_type old.mime_type;
  size_bytes = row.size_bytes;
  updated_at = row.updated_at;
  hash_state = if same row.hash_state content then content else old.hash_state;
}

unfoldable pub upsert_object : ObjectRow → Store → Option Store
upsert_object row t =
    if is_hash_state row.hash_state
    then if has_object t.objects row.id
      then some
          (record t { objects = update_where (λ o. same o.id row.id) (merge_object row) t.objects })
      else some (record t { objects = t.objects ++ row ∷ [] })
    else none

-- The `DO UPDATE SET` of a location: `id`, `parent_id` and `created_at` stay.
abbrev pub merge_location : LocationRow → LocationRow → LocationRow
merge_location row old = record old {
  object_id = row.object_id;
  name = row.name;
  extension = row.extension;
  is_directory = row.is_directory;
  size_bytes = row.size_bytes;
  allocated_bytes = row.allocated_bytes;
  modified_at = row.modified_at;
  accessed_at = row.accessed_at;
  fid = row.fid;
}

-- The statement of `upsert_location`, with the foreign keys checked or not.
unfoldable pub insert_location : Bool → LocationRow → Store → Option Store
insert_location foreign_keys row t =
    if foreign_keys && not (has_object t.objects row.object_id)
    then none
    else if exists (at_path row.volume_id row.path) t.locations
    then some (record t {
      locations = update_where (at_path row.volume_id row.path) (merge_location row) t.locations;
    })
    else if has_location t.locations row.id
    then none
    else if foreign_keys && not (is_parent (row ∷ t.locations) row.parent_id)
    then none
    else some (record t { locations = t.locations ++ row ∷ [] })

unfoldable pub upsert_location : LocationRow → Store → Option Store
unfolding insert_location
upsert_location row t = insert_location true row t

unfoldable pub upsert_objects_batch : List ObjectRow → Store → Option Store
unfolding upsert_object
upsert_objects_batch [] t = some t
upsert_objects_batch (row ∷ rows) t = upsert_object row t >>= upsert_objects_batch rows

unfoldable pub insert_locations : List LocationRow → Store → Option Store
unfolding insert_location
insert_locations [] t = some t
insert_locations (row ∷ rows) t = insert_location false row t >>= insert_locations rows

-- The dedicated connection of the batch: `foreign_keys` of it, when it returns to the pool. An
-- error of the loop leaves before the pragma that sets it on again.
abbrev pub batch_end : Option Store → Option Store × Bool
batch_end none = (none, false)
batch_end (some t) = (some t, true)

unfoldable pub upsert_locations_batch : List LocationRow → Store × Bool → Option Store × Bool
unfolding insert_locations
upsert_locations_batch [] (t, foreign_keys) = (some t, foreign_keys)
upsert_locations_batch (row ∷ rows) (t, foreign_keys) = batch_end (insert_locations (row ∷ rows) t)

unfoldable pub save_cursor : String → String → String → Store → Store
save_cursor now volume_key cursor_json t =
    if exists (λ c. same c.volume_key volume_key) t.cursors
    then record t {
      cursors =
          update_where (λ c. same c.volume_key volume_key)
            (λ c. record c { cursor_json = cursor_json; updated_at = now }) t.cursors;
    }
    else record t {
      cursors =
          t.cursors
          ++ record { volume_key = volume_key; cursor_json = cursor_json; updated_at = now } ∷ [];
    }

abbrev cursor_of : Option CursorRow → Option String
cursor_of none = none
cursor_of (some row) = some row.cursor_json

unfoldable pub load_cursor : String → Store → Option String
load_cursor volume_key t = cursor_of (first_where (λ c. same c.volume_key volume_key) t.cursors)
