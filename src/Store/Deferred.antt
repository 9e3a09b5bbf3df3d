-- ===== src/Store/Deferred.antt =====
-- core/src/db/queries.rs: the queries of the deferred hashing.
use hypr_drive.Prelude.{
  ℕ, Bool, false, not, ◌&&◌, Option, some, none, String, List, [], ◌∷◌, ◌++◌, if◌then◌else◌,
}
use hypr_drive.Store.Rows.{update_where, exists, first_where, count, same}
use hypr_drive.Store.{ObjectRow, Store, content, deferred, has_object, delete_objects}

unfoldable pub pending_hash_count : Store → ℕ
pending_hash_count t = count (λ o. same o.hash_state deferred) t.objects

-- The INSERT of the new object: a copy of the old one, if that is there.
abbrev pub insert_content : String → String → Option ObjectRow → List ObjectRow → List ObjectRow
insert_content now new_id none objects = objects
insert_content now new_id (some old) objects =
    if has_object objects new_id
    then update_where (λ o. same o.id new_id)
        (λ o. record o { hash_state = content; updated_at = now }) objects
    else objects ++ record old { id = new_id; updated_at = now; hash_state = content } ∷ []

-- The UPDATE of the locations; the new object must be there if there is one to point at it.
abbrev pub repoint : String → String → Store → Option Store
repoint new_id old_id t =
    if exists (λ l. same l.object_id old_id) t.locations && not (has_object t.objects new_id)
    then none
    else some (record t {
      locations =
          update_where (λ l. same l.object_id old_id) (λ l. record l { object_id = new_id })
            t.locations;
    })

abbrev pub is_deferred : String → ObjectRow → Bool
is_deferred id o = same o.id id && same o.hash_state deferred

unfoldable pub delete_old : String → Option Store → Option (Bool × Store)
unfolding delete_objects
delete_old old_id none = none
delete_old old_id (some t) =
    some (exists (is_deferred old_id) t.objects, delete_objects (is_deferred old_id) t)

unfoldable pub upgrade_deferred_object : String → String → String → Store → Option (Bool × Store)
unfolding delete_old
upgrade_deferred_object now old_object_id new_object_id t =
    if same old_object_id new_object_id
    then some (false, t)
    else delete_old old_object_id (
        repoint new_object_id old_object_id (record t {
          objects =
              insert_content now new_object_id
                (first_where (λ o. same o.id old_object_id) t.objects) t.objects;
        }))
