-- ===== src/Store/Kept.antt =====
-- What the upgrade of a deferred object in core/src/db/queries.rs leaves of the locations, also where
-- there is nothing to upgrade.
use hypr_drive.Prelude.{
  ◌≡◌, refl, ◌∙◌, Bool, true, false, not, ◌&&◌, Option, some, none, String, List, [], ◌∷◌,
  Bool-cases, inl, inr,
}
use hypr_drive.Store.Rows.{keep, update_where, exists, first_where, same, same_iff}
use hypr_drive.Store.Rows.Existence.{exists-update_where, exists_mono, keep-none}
use hypr_drive.Store.Rows.Unique.{Unique}
use hypr_drive.Store.{ObjectRow, LocationRow, Store, has_object, at_path, deferred, delete_objects}
use hypr_drive.Store.Consistent.{IsConsistent}
use hypr_drive.Store.Deferred.{repoint, is_deferred, delete_old, upgrade_deferred_object}
use hypr_drive.Store.Upgrade.{store_of}
use hypr_drive.Store.Orphans.{delete_locations-none, exists-false}
use hypr_drive.Store.Upgraded.{no_object, and_left, inserted-deferred_same}
use hypr_drive.Store.Rehash.{upgrade_deferred_object-IsUpgraded}

-- A deferred object is the one that its id finds.
first_where-deferred :
    (id : String) (rows : List ObjectRow)
    → Unique (λ o. o.id) rows
    → exists (is_deferred id) rows ≡ true
    → (o : ObjectRow) × (first_where (λ o. same o.id id) rows ≡ some o)
      × (same o.hash_state deferred ≡ true)
first_where-deferred id [] u h = cc
first_where-deferred id (r ∷ rows) u h = elim (Bool-cases (same r.id id)) [
  | inr f ↦ rw f (first_where-deferred id rows u.1 (rw f at h))
  | inl t ↦ elim (Bool-cases (same r.hash_state deferred)) [
    | inl d ↦ (r, rw t refl, d)
    | inr f ↦
        let k =
          exists_mono (is_deferred id) (λ o. same o.id id)
            (λ o. and_left (same o.id id) (same o.hash_state deferred)) rows (rw (t, f) at h) in
        let n =
          exists-false (λ o. same o.id id) rows
            (no_object id r.id rows ((same_iff r.id id).0 t) u.0) in
        absurd (cc)
  ]
]

-- Where no object is deleted no location is.
delete_objects-none :
    (p : ObjectRow → Bool) (t : Store)
    → exists p t.objects ≡ false
    → (delete_objects p t).locations ≡ t.locations
unfolding delete_objects
delete_objects-none p t h =
    delete_locations-none (λ l. has_object (keep p t.objects) l.object_id) t
      (rw (keep-none p t.objects h) (nowhere t.locations))
  where
    nowhere : (rows : List LocationRow) → exists (λ l. has_object [] l.object_id) rows ≡ false
    nowhere [] = refl
    nowhere (l ∷ rows) = nowhere rows

-- A location by its id and its place.
abbrev pub is_at : String → String → String → LocationRow → Bool
is_at id volume_id path l = same l.id id && at_path volume_id path l

module _ (id volume_id path : String) where
  abbrev q : LocationRow → Bool
  q = is_at id volume_id path

  -- A statement that is not refused leaves the location where it is.
  abbrev pub Keeps : Store → Option Store → Type 0
  Keeps t none = Unit
  Keeps t (some u) = exists q t.locations ≡ true → exists q u.locations ≡ true

  pub Keeps-same : (t u : Store) → u.locations ≡ t.locations → Keeps t (some u)
  Keeps-same t u e h = rw e h

  module _ (old_id new_id : String) (t : Store) where
    abbrev repointed : Store → Store
    repointed s = record s {
      locations =
          update_where (λ l. same l.object_id old_id) (λ l. record l { object_id = new_id })
            s.locations;
    }

    repointed-Keeps :
        (s : Store)
        → s.locations ≡ t.locations
        → exists (is_deferred old_id) s.objects ≡ false
        → Keeps t (store_of (delete_old old_id (repoint new_id old_id s)))
    unfolding delete_old
    repointed-Keeps s e d =
        elim (Bool-cases (
          exists (λ l. same l.object_id old_id) s.locations && not (has_object s.objects new_id))) [
            | inl r ↦ rw r tt
            | inr f ↦ rw f (λ h.
                rw
                  (
                    delete_objects-none (is_deferred old_id) (repointed s) d,
                    exists-update_where q (λ l. same l.object_id old_id)
                        (λ l. record l { object_id = new_id }) (λ _. refl) s.locations,
                    e,
                  )
                  h)
          ]

  pub upgrade-Keeps :
      (now old_id new_id : String) (t : Store)
      → IsConsistent t
      → Keeps t (store_of (upgrade_deferred_object now old_id new_id t))
  upgrade-Keeps now old_id new_id t c = elim (Bool-cases (same old_id new_id)) [
    | inl e ↦ unfold upgrade_deferred_object in rw e (λ h. h)
    | inr n ↦ elim (Bool-cases (exists (is_deferred old_id) t.objects)) [
      | inr f ↦
          unfold upgrade_deferred_object in
          rw n (
            repointed-Keeps old_id new_id t _ refl
              (inserted-deferred_same now old_id new_id n _ t.objects ∙ f))
      | inl d ↦
          let (o, found, pending) = first_where-deferred old_id t.objects c.object_ids d in
          let (u, e, done) =
            upgrade_deferred_object-IsUpgraded now old_id new_id t o c n found pending in
          rw e (λ h.
            rw
              (
                done.locations,
                exists-update_where q (λ l. same l.object_id old_id)
                    (λ l. record l { object_id = new_id }) (λ _. refl) t.locations,
              )
              h)
    ]
  ]
