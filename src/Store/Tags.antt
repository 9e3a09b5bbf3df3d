-- ===== src/Store/Tags.antt =====
-- core/src/db/queries.rs: the tags on objects.
use hypr_drive.Prelude.{
  ℕ, ◌+◌, Bool, not, ◌&&◌, Option, some, none, String, List, [], ◌∷◌, ◌++◌, if◌then◌else◌, ◌>>=◌,
}
use hypr_drive.Store.Rows.{keep, exists, count, same}
use hypr_drive.Store.{TagRow, Store, has_object}

abbrev pub has_tag : List TagRow → String → Bool
has_tag tags id = exists (λ g. same g.id id) tags

abbrev pub is_junction : String → String → String × String → Bool
is_junction tag_id object_id (tag, object) = same tag tag_id && same object object_id

-- `INSERT OR IGNORE`: the rows inserted. A foreign key is not ignored.
unfoldable pub add_tag : String → String → Store → Option (ℕ × Store)
add_tag tag_id object_id t =
    if exists (is_junction tag_id object_id) t.tags_on_objects
    then some (0, t)
    else if has_tag t.tags tag_id && has_object t.objects object_id
    then some (1, record t { tags_on_objects = t.tags_on_objects ++ (tag_id, object_id) ∷ [] })
    else none

abbrev pub more : ℕ → Option (ℕ × Store) → Option (ℕ × Store)
more n none = none
more n (some (m, t)) = some (n + m, t)

unfoldable pub add_tags_batch : String → List String → Store → Option (ℕ × Store)
unfolding add_tag
add_tags_batch tag_id [] t = some (0, t)
add_tags_batch tag_id (id ∷ ids) t = do
  (inserted, next) ← add_tag tag_id id t
  more inserted (add_tags_batch tag_id ids next)

unfoldable pub remove_tags_batch : String → List String → Store → ℕ × Store
remove_tags_batch tag_id [] t = (0, t)
remove_tags_batch tag_id (id ∷ ids) t =
    let (deleted, next) = remove_tags_batch tag_id ids (record t {
      tags_on_objects = keep (λ e. not (is_junction tag_id id e)) t.tags_on_objects;
    }) in
    (count (is_junction tag_id id) t.tags_on_objects + deleted, next)

-- The order of the join is not specified: here it is that of the tags.
unfoldable pub tags_for_object : String → Store → List TagRow
tags_for_object object_id t =
    keep (λ g. exists (is_junction g.id object_id) t.tags_on_objects) t.tags
