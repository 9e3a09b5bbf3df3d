-- ===== src/Store/Consistent.antt =====
-- The constraints of core/migrations on the tables, and that the deletions of core/src/db/queries.rs
-- keep them.
use hypr_drive.Prelude.{
  ◌≡◌, refl, sym, ◌∙◌, Bool, true, false, not, Option, some, none, String, List,
}
use hypr_drive.Prelude.HashMap.{All}
use hypr_drive.Store.Rows.{keep, update_where, same}
use hypr_drive.Store.Rows.Existence.{All-keep, All-update_where, exists-update_where, exists-keep}
use hypr_drive.Store.Rows.Unique.{Unique, Unique-keep, Unique-update_where}
use hypr_drive.Store.{
  ObjectRow, LocationRow, Store, is_hash_state, has_object, refers_to, is_parent, delete_locations,
  delete_objects,
}
use hypr_drive.Store.Tags.{has_tag}

abbrev pub place : LocationRow → String × String
place l = (l.volume_id, l.path)

-- Primary keys, `UNIQUE(volume_id, path)`, the foreign keys and the check of the hash states.
pub record IsConsistent (t : Store) : Type 0 where
  pub object_ids : Unique (λ o. o.id) t.objects
  pub location_ids : Unique (λ l. l.id) t.locations
  pub places : Unique place t.locations
  pub junctions : Unique (λ e. e) t.tags_on_objects
  pub cursor_keys : Unique (λ c. c.volume_key) t.cursors
  pub states : All (λ o. is_hash_state o.hash_state ≡ true) t.objects
  pub owned : All (λ l. has_object t.objects l.object_id ≡ true) t.locations
  pub parents : All (λ l. is_parent t.locations l.parent_id ≡ true) t.locations
  pub tagged : All (λ e. has_object t.objects e.1 ≡ true) t.tags_on_objects
  pub known_tags : All (λ e. has_tag t.tags e.0 ≡ true) t.tags_on_objects

module _ (p : LocationRow → Bool) (locations : List LocationRow) where
  abbrev left : List LocationRow
  left =
      update_where (λ l. refers_to (keep p locations) l.parent_id)
        (λ l. record l { parent_id = none }) (keep (λ l. not (p l)) locations)

  -- A parent that is not deleted stays.
  is_parent-left :
      (parent : Option String)
      → is_parent locations parent ≡ true
      → refers_to (keep p locations) parent ≡ false
      → is_parent left parent ≡ true
  is_parent-left none h k = refl
  is_parent-left (some id) h k =
      exists-update_where (λ l. same l.id id) (λ l. refers_to (keep p locations) l.parent_id)
        (λ l. record l { parent_id = none }) (λ _. refl) (keep (λ l. not (p l)) locations)
      ∙ exists-keep (λ l. same l.id id) p locations h k

pub delete_locations-IsConsistent :
    (p : LocationRow → Bool) (t : Store) → IsConsistent t → IsConsistent (delete_locations p t)
unfolding delete_locations
delete_locations-IsConsistent p t c = record {
  object_ids = c.object_ids;
  location_ids =
      Unique-update_where (λ l. l.id) hit clear (λ _. refl) kept
        (Unique-keep (λ l. l.id) (λ l. not (p l)) t.locations c.location_ids);
  places =
      Unique-update_where place hit clear (λ _. refl) kept
        (Unique-keep place (λ l. not (p l)) t.locations c.places);
  junctions = c.junctions;
  cursor_keys = c.cursor_keys;
  states = c.states;
  owned =
      All-update_where hit clear (λ _ _ h. h) (λ _ _ h. h) kept
        (All-keep (λ l. not (p l)) (λ _ _ h. h) t.locations c.owned);
  parents =
      All-update_where hit clear (λ _ _ _. refl)
        (λ l n h. is_parent-left p t.locations l.parent_id h n) kept
        (All-keep (λ l. not (p l)) (λ _ _ h. h) t.locations c.parents);
  tagged = c.tagged;
  known_tags = c.known_tags;
}
  where
    hit : LocationRow → Bool
    hit l = refers_to (keep p t.locations) l.parent_id

    clear : LocationRow → LocationRow
    clear l = record l { parent_id = none }

    kept : List LocationRow
    kept = keep (λ l. not (p l)) t.locations

-- What holds of the rows kept, whatever their parent, holds after a deletion.
pub All-delete_locations :
    (P : String → Type 0) (p : LocationRow → Bool) (t : Store)
    → All (λ l. P l.object_id) (keep (λ l. not (p l)) t.locations)
    → All (λ l. P l.object_id) (delete_locations p t).locations
unfolding delete_locations
All-delete_locations P p t h =
    All-update_where (λ l. refers_to (keep p t.locations) l.parent_id)
      (λ l. record l { parent_id = none }) (λ _ _ h. h) (λ _ _ h. h)
      (keep (λ l. not (p l)) t.locations) h

pub not-eq-true : (b : Bool) → not b ≡ true → b ≡ false
not-eq-true true h = sym h
not-eq-true false h = refl

pub delete_objects-IsConsistent :
    (p : ObjectRow → Bool) (t : Store) → IsConsistent t → IsConsistent (delete_objects p t)
unfolding delete_objects
delete_objects-IsConsistent p t c =
    let d = delete_locations-IsConsistent (λ l. has_object gone l.object_id) t c in
    record {
      object_ids = Unique-keep (λ o. o.id) (λ o. not (p o)) t.objects c.object_ids;
      location_ids = d.location_ids;
      places = d.places;
      junctions = Unique-keep (λ e. e) used t.tags_on_objects c.junctions;
      cursor_keys = c.cursor_keys;
      states = All-keep (λ o. not (p o)) (λ _ _ h. h) t.objects c.states;
      owned =
          All-delete_locations (λ id. has_object (keep (λ o. not (p o)) t.objects) id ≡ true)
            (λ l. has_object gone l.object_id) t
            (All-keep (λ l. not (has_object gone l.object_id))
              (λ l k h. has_object-kept l.object_id h (not-eq-true _ k)) t.locations c.owned);
      parents = d.parents;
      tagged =
          All-keep used (λ e k h. has_object-kept e.1 h (not-eq-true _ k)) t.tags_on_objects
            c.tagged;
      known_tags = All-keep used (λ _ _ h. h) t.tags_on_objects c.known_tags;
    }
  where
    gone : List ObjectRow
    gone = keep p t.objects

    used : String × String → Bool
    used e = not (has_object gone e.1)

    has_object-kept :
        (id : String)
        → has_object t.objects id ≡ true
        → has_object gone id ≡ false
        → has_object (keep (λ o. not (p o)) t.objects) id ≡ true
    has_object-kept id = exists-keep (λ o. same o.id id) p t.objects
