-- ===== src/Store.antt =====
-- core/src/db: the tables of the index (core/migrations, core/src/db/types.rs) and the queries that
-- change them (core/src/db/queries.rs), each SQL statement by its documented effect on lists of
-- rows. `none` is a statement that a constraint refuses: its transaction is rolled back.
pub mod Rows
pub mod Upserts
pub mod Deletes
pub mod Deferred
pub mod Tags
pub mod Consistent
pub mod Preserved
pub mod Locations
pub mod Upgrade
pub mod Junctions
pub mod Commands
pub mod Orphans
pub mod Upgraded
pub mod Rehash
pub mod Kept
pub mod Spared
pub mod Pending
mod Tests
use hypr_drive.Prelude.{
  ℕ, zero, suc, ◌+◌, Bool, true, false, not, ◌&&◌, ◌||◌, Option, some, none, String, List, [], ◌∷◌,
  ◌==◌, if◌then◌else◌,
}
use hypr_drive.Prelude.Int.{ℤ, pos, negsuc}
use text.Mathlib.Text
use hypr_drive.Store.Rows.{keep, update_where, exists, same}

pub record ObjectRow : Type 0 where
  pub id : String
  pub kind : String
  pub mime_type : Option String
  pub size_bytes : ℤ
  pub created_at : String
  pub updated_at : String
  pub hash_state : String

pub record LocationRow : Type 0 where
  pub id : String
  pub object_id : String
  pub volume_id : String
  pub path : String
  pub name : String
  pub extension : Option String
  pub parent_id : Option String
  pub is_directory : Bool
  pub size_bytes : ℤ
  pub allocated_bytes : ℤ
  pub created_at : String
  pub modified_at : String
  pub accessed_at : Option String
  pub fid : Option ℤ

pub record TagRow : Type 0 where
  pub id : String
  pub name : String
  pub color : Option String
  pub parent_id : Option String

pub record CursorRow : Type 0 where
  pub volume_key : String
  pub cursor_json : String
  pub updated_at : String

-- The rows of `tags_on_objects` are pairs of a tag and an object.
pub record Store : Type 0 where
  pub objects : List ObjectRow
  pub locations : List LocationRow
  pub tags : List TagRow
  pub tags_on_objects : List (String × String)
  pub cursors : List CursorRow

abbrev pub content : String
content = "content"

abbrev pub deferred : String
deferred = "deferred"

-- The check of migration 013.
abbrev pub is_hash_state : String → Bool
is_hash_state s = same s content || same s deferred

abbrev pub has_object : List ObjectRow → String → Bool
has_object objects id = exists (λ o. same o.id id) objects

abbrev pub has_location : List LocationRow → String → Bool
has_location locations id = exists (λ l. same l.id id) locations

-- A reference to a location that may be NULL.
abbrev pub refers_to : List LocationRow → Option String → Bool
refers_to locations none = false
refers_to locations (some id) = has_location locations id

-- `parent_id REFERENCES locations(id)`: NULL, or the id of a row.
abbrev pub is_parent : List LocationRow → Option String → Bool
is_parent locations none = true
is_parent locations (some id) = has_location locations id

-- `WHERE volume_id = ?1 AND path = ?2`
abbrev pub at_path : String → String → LocationRow → Bool
at_path volume_id path l = same l.volume_id volume_id && same l.path path

abbrev same_int : ℤ → ℤ → Bool
same_int (pos a) (pos b) = a == b
same_int (pos a) (negsuc b) = false
same_int (negsuc a) (pos b) = false
same_int (negsuc a) (negsuc b) = a == b

-- NULL equals nothing.
abbrev is_fid : ℤ → Option ℤ → Bool
is_fid fid none = false
is_fid fid (some k) = same_int k fid

-- `WHERE volume_id = ?1 AND fid = ?2`
abbrev pub at_fid : String → ℤ → LocationRow → Bool
at_fid volume_id fid l = same l.volume_id volume_id && is_fid fid l.fid

-- `DELETE FROM locations WHERE p`, with `ON DELETE SET NULL` of the children's `parent_id`.
unfoldable pub delete_locations : (LocationRow → Bool) → Store → Store
delete_locations p t = record t {
  locations =
      update_where (λ l. refers_to (keep p t.locations) l.parent_id)
        (λ l. record l { parent_id = none }) (keep (λ l. not (p l)) t.locations);
}

-- `DELETE FROM objects WHERE p`, with `ON DELETE CASCADE` to locations and tags.
unfoldable pub delete_objects : (ObjectRow → Bool) → Store → Store
unfolding delete_locations
delete_objects p t =
    let gone = keep p t.objects in
    let s = delete_locations (λ l. has_object gone l.object_id) t in
    record s {
      objects = keep (λ o. not (p o)) t.objects;
      tags_on_objects = keep (λ e. not (has_object gone e.1)) t.tags_on_objects;
    }
