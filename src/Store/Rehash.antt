-- ===== src/Store/Rehash.antt =====
-- The upgrade of a deferred object in core/src/db/queries.rs, as a whole.
use hypr_drive.Prelude.{◌≡◌, refl, ap, ◌∙◌, true, false, not, some, String, List, [], ◌∷◌}
use hypr_drive.Prelude.HashMap.{All}
use hypr_drive.Store.Rows.{keep, update_where, exists, first_where, same}
use hypr_drive.Store.Rows.Existence.{
  All-update_where, exists_mono, keep-ext, exists-keep, exists-keep_none,
}
use hypr_drive.Store.{ObjectRow, LocationRow, Store, has_object, content, deferred, delete_objects}
use hypr_drive.Store.Deferred.{insert_content, is_deferred, delete_old, upgrade_deferred_object}
use hypr_drive.Store.Consistent.{IsConsistent}
use hypr_drive.Store.Upgrade.{insert_content-IsConsistent}
use hypr_drive.Store.Orphans.{delete_locations-none, exists-false}
use hypr_drive.Store.Upgraded.{
  IsUpgraded, is_content, exists-deferred, only_deferred, has_object-deleted, inserted-content,
  inserted-deferred, repoint-some, same_sym, and_left, other_id,
}

module _ (now old_id new_id : String) (n : same old_id new_id ≡ false) (t : Store) (o : ObjectRow)
    (found : first_where (λ o. same o.id old_id) t.objects ≡ some o)
    (pending : same o.hash_state deferred ≡ true) (c : IsConsistent t) where
  abbrev objects : List ObjectRow
  objects = insert_content now new_id (some o) t.objects

  abbrev repointed : List LocationRow
  repointed =
      update_where (λ l. same l.object_id old_id) (λ l. record l { object_id = new_id }) t.locations

  abbrev between : Store
  between = record t { objects = objects; locations = repointed }

  still_there : exists (is_deferred old_id) objects ≡ true
  still_there =
      inserted-deferred now old_id new_id n o t.objects
        (exists-deferred old_id t.objects found pending)

  -- After the update no location is of the old object.
  none_left :
      exists (λ l. has_object (keep (is_deferred old_id) objects) l.object_id) repointed ≡ false
  none_left =
      exists-false (λ l. has_object (keep (is_deferred old_id) objects) l.object_id) repointed
        (All-update_where (λ l. same l.object_id old_id) (λ l. record l { object_id = new_id })
          (λ l _ _. has_object-deleted old_id new_id objects still_there ∙ n)
          (λ l f _.
            has_object-deleted old_id l.object_id objects still_there
            ∙ same_sym l.object_id old_id f)
          t.locations (everything t.locations))
    where
      everything : (rows : List LocationRow) → All (λ l. Unit {0}) rows
      everything [] = tt
      everything (l ∷ rows) = (tt, everything rows)

  abbrev after : Store
  after = delete_objects (is_deferred old_id) between

  upgraded : IsUpgraded old_id new_id t after
  unfolding delete_objects
  upgraded = record {
    locations = delete_locations-none _ between none_left;
    hashed =
        exists-keep (is_content new_id) (is_deferred old_id) objects
          (inserted-content now old_id new_id n o t.objects)
          (exists-keep_none (is_deferred old_id) (is_content new_id)
            (λ r d.
              rw
                (other_id old_id new_id n r
                  (and_left (same r.id old_id) (same r.hash_state deferred) d))
                refl)
            objects);
    replaced =
        only_deferred old_id objects
          (insert_content-IsConsistent now new_id t c (some o)).object_ids still_there;
    tags_on_objects =
        keep-ext _ _ (λ e. ap not (has_object-deleted old_id e.1 objects still_there))
          t.tags_on_objects;
  }

  result : upgrade_deferred_object now old_id new_id t ≡ some (true, after)
  unfolding upgrade_deferred_object delete_old
  result =
      let has =
        exists_mono (is_content new_id) (λ r. same r.id new_id)
          (λ r. and_left (same r.id new_id) (same r.hash_state content)) objects
          (inserted-content now old_id new_id n o t.objects) in
      rw (n, found, repoint-some new_id old_id (record t { objects = objects }) has, still_there)
        refl

-- In consistent tables the upgrade of a deferred object to another id succeeds: every location of
-- the old object is now one of the new object, which has its real hash, and no location is lost or
-- changed otherwise; nothing has the old id any more. The tags of the old object are lost.
pub upgrade_deferred_object-IsUpgraded :
    (now old_id new_id : String) (t : Store) (o : ObjectRow)
    → IsConsistent t
    → same old_id new_id ≡ false
    → first_where (λ o. same o.id old_id) t.objects ≡ some o
    → same o.hash_state deferred ≡ true
    → (u : Store) × (upgrade_deferred_object now old_id new_id t ≡ some (true, u))
      × IsUpgraded old_id new_id t u
upgrade_deferred_object-IsUpgraded now old_id new_id t o c n found pending = (
  after now old_id new_id n t o found pending c,
  result now old_id new_id n t o found pending c,
  upgraded now old_id new_id n t o found pending c,
)
