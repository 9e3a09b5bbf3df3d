-- ===== src/Pipeline/Owned.antt =====
-- The batches of crates/object-pipeline/src/pipeline.rs insert locations without foreign keys. All
-- constraints of core/migrations but the one on parents hold nevertheless.
use hypr_drive.Prelude.{
  ◌≡◌, refl, ap, ◌∙◌, Bool, true, false, ◌||◌, Option, some, none, String, List, [], ◌∷◌, ◌++◌, map,
  Bool-cases, inl, inr, ◌>>=◌,
}
use hypr_drive.Prelude.HashMap.{All}
use hypr_drive.Store.Rows.{update_where, exists, same}
use hypr_drive.Store.{
  ObjectRow, LocationRow, Store, has_object, has_location, at_path, is_hash_state,
}
use hypr_drive.Store.Rows.Existence.{All-mono, exists-snoc, exists-update_where}
use hypr_drive.Store.Rows.{same_iff}
use hypr_drive.Store.Upserts.{
  merge_object, merge_location, upsert_object, insert_location, upsert_location,
  upsert_objects_batch, insert_locations,
}
use hypr_drive.Store.Consistent.{IsConsistent}
use hypr_drive.Store.Preserved.{Good, upsert_object-Good}
use hypr_drive.Store.Locations.{upsert_location-Good}

abbrev clear : LocationRow → LocationRow
clear l = record l { parent_id = none }

-- The tables as if no location had a parent.
abbrev pub without_parents : Store → Store
without_parents t = record t { locations = map clear t.locations }

abbrev pub IsOwned : Store → Type 0
IsOwned t = IsConsistent (without_parents t)

abbrev map_store : (Store → Store) → Option Store → Option Store
map_store f none = none
map_store f (some t) = some (f t)

exists-clear :
    (p : LocationRow → Bool) (rows : List LocationRow)
    → ((l : LocationRow) → p (clear l) ≡ p l)
    → exists p (map clear rows) ≡ exists p rows
exists-clear p [] e = refl
exists-clear p (r ∷ rows) e = rw (e r, exists-clear p rows e) refl

update_where-clear :
    (row : LocationRow) (rows : List LocationRow)
    → map clear (update_where (at_path row.volume_id row.path) (merge_location row) rows)
      ≡ update_where (at_path row.volume_id row.path) (merge_location (clear row)) (map clear rows)
update_where-clear row [] = refl
update_where-clear row (r ∷ rows) = elim (Bool-cases (at_path row.volume_id row.path r)) [
  | inl t ↦ rw (t, update_where-clear row rows) refl
  | inr f ↦ rw (f, update_where-clear row rows) refl
]

map-snoc :
    (rows : List LocationRow) (r : LocationRow)
    → map clear (rows ++ r ∷ []) ≡ map clear rows ++ clear r ∷ []
map-snoc [] r = refl
map-snoc (x ∷ rows) r = ap (◌∷◌ (clear x)) (map-snoc rows r)

-- An insert without foreign keys does what one with them does, up to the parents, where the object
-- is there.
insert_location-without_parents :
    (row : LocationRow) (t : Store)
    → has_object t.objects row.object_id ≡ true
    → map_store without_parents (insert_location false row t)
      ≡ upsert_location (clear row) (without_parents t)
unfolding insert_location upsert_location
insert_location-without_parents row t o =
    let a = exists-clear (at_path row.volume_id row.path) t.locations (λ _. refl) in
    let b = exists-clear (λ l. same l.id row.id) t.locations (λ _. refl) in
    elim (Bool-cases (exists (at_path row.volume_id row.path) t.locations)) [
      | inl h ↦ rw (o, a, h, update_where-clear row t.locations) refl
      | inr f ↦ elim (Bool-cases (has_location t.locations row.id)) [
        | inl h ↦ rw (o, a, f, b, h) refl
        | inr n ↦ rw (o, a, f, b, n, map-snoc t.locations row) refl
      ]
    ]

-- What the inserts of the objects leave for those of the locations.
pub record Stored (ids : List ObjectRow) (t u : Store) : Type 0 where
  pub consistent : IsOwned u
  pub present : All (λ o. has_object u.objects o.id ≡ true) ids
  pub kept : (id : String) → has_object t.objects id ≡ true → has_object u.objects id ≡ true

abbrev pub Either : (Store → Type 0) → Option Store → Type 0
Either P none = Unit
Either P (some u) = P u

upsert_object-Stored :
    (row : ObjectRow) (t : Store) → IsOwned t → Either (Stored (row ∷ []) t) (upsert_object row t)
unfolding upsert_object
upsert_object-Stored row t c =
    let g = upsert_object-Good row (without_parents t) c in
    elim (Bool-cases (is_hash_state row.hash_state)) [
      | inr f ↦ rw f tt
      | inl s ↦ elim (Bool-cases (has_object t.objects row.id)) [
        | inl h ↦
            let e : (id : String)
                → has_object (update_where (λ o. same o.id row.id) (merge_object row) t.objects) id
                  ≡ has_object t.objects id =
              λ id.
                exists-update_where (λ o. same o.id id) (λ o. same o.id row.id) (merge_object row)
                  (λ _. refl) t.objects in
            rw (s, h)
              (record {
                consistent = rw (s, h) at g;
                present = (e row.id ∙ h, tt);
                kept = λ id k. e id ∙ k;
              })
        | inr n ↦
            let e : (id : String)
                → has_object (t.objects ++ row ∷ []) id
                  ≡ (has_object t.objects id || same row.id id) =
              λ id. exists-snoc (λ o. same o.id id) t.objects row in
            rw (s, n)
              (record {
                consistent = rw (s, n) at g;
                present = (e row.id ∙ (rw ((same_iff row.id row.id).1 refl, n) refl), tt);
                kept = λ id k. e id ∙ (rw k refl);
              })
      ]
    ]

pub upsert_objects_batch-Stored :
    (rows : List ObjectRow) (t : Store)
    → IsOwned t
    → Either (Stored rows t) (upsert_objects_batch rows t)
unfolding upsert_objects_batch
upsert_objects_batch-Stored [] t c = record { consistent = c; present = tt; kept = λ id k. k }
upsert_objects_batch-Stored (row ∷ rows) t c =
    next (upsert_object row t) (upsert_object-Stored row t c) (upsert_objects_batch-Stored rows)
  where
    both :
        (u : Store)
        → Stored (row ∷ []) t u
        → (m : Option Store) → Either (Stored rows u) m
        → Either (Stored (row ∷ rows) t) m
    both u s none e = tt
    both u s (some v) e = record {
      consistent = e.consistent;
      present = (e.kept row.id s.present.0, e.present);
      kept = λ id k. e.kept id (s.kept id k);
    }

    next :
        (m : Option Store)
        → Either (Stored (row ∷ []) t) m
        → ((u : Store) → IsOwned u → Either (Stored rows u) (upsert_objects_batch rows u))
        → Either (Stored (row ∷ rows) t) (m >>= upsert_objects_batch rows)
    next none e f = tt
    next (some u) e f = both u e (upsert_objects_batch rows u) (f u e.consistent)

insert_location-objects :
    (row : LocationRow) (t : Store)
    → Either (λ u. u.objects ≡ t.objects) (insert_location false row t)
unfolding insert_location
insert_location-objects row t =
    elim (Bool-cases (exists (at_path row.volume_id row.path) t.locations)) [
      | inl h ↦ rw h refl
      | inr f ↦ elim (Bool-cases (has_location t.locations row.id)) [
        | inl h ↦ rw (f, h) tt
        | inr n ↦ rw (f, n) refl
      ]
    ]

-- The locations are inserted without foreign keys, and have their objects.
insert_location-Owned :
    (row : LocationRow) (t : Store)
    → IsOwned t
    → has_object t.objects row.object_id ≡ true
    → Either (λ u. IsOwned u × (u.objects ≡ t.objects)) (insert_location false row t)
insert_location-Owned row t c o =
    through (insert_location false row t)
      (rw (insert_location-without_parents row t o)
        (upsert_location-Good (clear row) (without_parents t) c))
      (insert_location-objects row t)
  where
    through :
        (m : Option Store)
        → Good (map_store without_parents m)
        → Either (λ u. u.objects ≡ t.objects) m
        → Either (λ u. IsOwned u × (u.objects ≡ t.objects)) m
    through none g e = tt
    through (some u) g e = (g, e)

pub insert_locations-Owned :
    (rows : List LocationRow) (t : Store)
    → IsOwned t
    → All (λ l. has_object t.objects l.object_id ≡ true) rows
    → Either IsOwned (insert_locations rows t)
unfolding insert_locations
insert_locations-Owned [] t c o = c
insert_locations-Owned (row ∷ rows) t c o =
    next (insert_location false row t) (insert_location-Owned row t c o.0)
      (insert_locations-Owned rows)
  where
    next :
        (m : Option Store)
        → Either (λ u. IsOwned u × (u.objects ≡ t.objects)) m
        → ((u : Store)
            → IsOwned u
            → All (λ l. has_object u.objects l.object_id ≡ true) rows
            → Either IsOwned (insert_locations rows u))
        → Either IsOwned (m >>= insert_locations rows)
    next none e f = tt
    next (some u) e f = f u e.0 (All-mono (λ l k. rw e.1 k) rows o.1)
