-- ===== src/Store/Upgrade.antt =====
-- The upgrade of a deferred object in core/src/db/queries.rs keeps the constraints of
-- core/migrations.
use hypr_drive.Prelude.{refl, Option, some, none, String, Bool-cases, inl, inr}
use hypr_drive.Store.Rows.{exists, first_where, same}
use hypr_drive.Store.Rows.Existence.{update_where-none}
use hypr_drive.Store.{ObjectRow, Store, has_object, content}
use hypr_drive.Store.Deferred.{
  insert_content, repoint, is_deferred, delete_old, upgrade_deferred_object,
}
use hypr_drive.Store.Consistent.{IsConsistent, delete_objects-IsConsistent}
use hypr_drive.Store.Preserved.{
  Good, with_new_object-IsConsistent, with_updated_objects-IsConsistent,
}
use hypr_drive.Store.Locations.{with_updated_locations-IsConsistent}

abbrev pub store_of : {A : Type 0} → Option (A × Store) → Option Store
store_of none = none
store_of (some (_, t)) = some t

module _ (now new_id : String) (t : Store) (c : IsConsistent t) where
  pub insert_content-IsConsistent :
      (o : Option ObjectRow)
      → IsConsistent (record t { objects = insert_content now new_id o t.objects })
  insert_content-IsConsistent none = c
  insert_content-IsConsistent (some old) = elim (Bool-cases (has_object t.objects new_id)) [
    | inl h ↦ rw h (
        with_updated_objects-IsConsistent (λ o. same o.id new_id)
          (λ o. record o { hash_state = content; updated_at = now }) t (λ _. refl) (λ _ _. refl) c)
    | inr n ↦ rw n (
        with_new_object-IsConsistent
          (record old { id = new_id; updated_at = now; hash_state = content }) t n refl c)
  ]

repoint-Good :
    (new_id old_id : String) (t : Store) → IsConsistent t → Good (repoint new_id old_id t)
repoint-Good new_id old_id t c =
    elim (Bool-cases (exists (λ l. same l.object_id old_id) t.locations)) [
      | inr n ↦
          rw
            (
              n,
              update_where-none (λ l. same l.object_id old_id)
                  (λ l. record l { object_id = new_id }) t.locations n,
            )
            c
      | inl h ↦ elim (Bool-cases (has_object t.objects new_id)) [
        | inr n ↦ rw (h, n) tt
        | inl o ↦
            rw (h, o)
              (with_updated_locations-IsConsistent (λ l. same l.object_id old_id)
                (λ l. record l { object_id = new_id }) t (λ _. refl) (λ _. refl) (λ _. refl)
                (λ _ _. o) c)
      ]
    ]

delete_old-Good :
    (old_id : String) (m : Option Store) → Good m → Good (store_of (delete_old old_id m))
unfolding delete_old
delete_old-Good old_id none g = tt
delete_old-Good old_id (some t) g = delete_objects-IsConsistent (is_deferred old_id) t g

pub upgrade_deferred_object-Good :
    (now old_id new_id : String) (t : Store)
    → IsConsistent t
    → Good (store_of (upgrade_deferred_object now old_id new_id t))
unfolding upgrade_deferred_object
upgrade_deferred_object-Good now old_id new_id t c = elim (Bool-cases (same old_id new_id)) [
  | inl h ↦ rw h c
  | inr n ↦ rw n (
      delete_old-Good old_id _ (
        repoint-Good new_id old_id
          (record t {
            objects =
                insert_content now new_id (first_where (λ o. same o.id old_id) t.objects) t.objects;
          })
          (insert_content-IsConsistent now new_id t c
            (first_where (λ o. same o.id old_id) t.objects))))
]
