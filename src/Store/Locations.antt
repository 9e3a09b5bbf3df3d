-- ===== src/Store/Locations.antt =====
-- The inserts and updates of locations in core/src/db/queries.rs keep the constraints of
-- core/migrations.
use hypr_drive.Prelude.{
  ◌≡◌, ◌≢◌, refl, ap, ◌∙◌, Bool, true, false, ◌||◌, Option, some, none, String, List, [], ◌∷◌, ◌++◌,
  arith, Bool-cases, inl, inr,
}
use hypr_drive.Prelude.HashMap.{All}
use hypr_drive.Store.Rows.{update_where, exists, same, same_iff}
use hypr_drive.Store.Rows.Existence.{
  All-mono, All-update_where, All-snoc, exists-All, exists-snoc, exists-update_where,
}
use hypr_drive.Store.Rows.Unique.{Unique-update_where, Unique-snoc}
use hypr_drive.Store.{LocationRow, Store, has_object, has_location, is_parent, at_path}
use hypr_drive.Store.Upserts.{merge_location, insert_location, upsert_location}
use hypr_drive.Store.Deletes.{insert_new}
use hypr_drive.Store.Consistent.{IsConsistent, place}
use hypr_drive.Store.Preserved.{Good, fresh}

at_place :
    (volume_id path : String) (l : LocationRow)
    → place l ≡ (volume_id, path)
    → at_path volume_id path l ≡ true
at_place volume_id path l e =
    rw
      (
        (same_iff l.volume_id volume_id).1 (ap (λ e. e.0) e),
        (same_iff l.path path).1 (ap (λ e. e.1) e),
      )
      refl

or_swap : (a b : Bool) → (a || b) ≡ true → (b || a) ≡ true
or_swap true b h = ground arith
or_swap false b h = ground (arith, h)

fresh_place :
    (volume_id path : String) (rows : List LocationRow)
    → exists (at_path volume_id path) rows ≡ false
    → All (λ l. place l ≢ (volume_id, path)) rows
fresh_place volume_id path rows h =
    All-mono (λ l f e. let t = at_place volume_id path l e in absurd (cc)) rows
      (exists-All (at_path volume_id path) rows h)

-- A parent stays when a row is added.
is_parent-snoc :
    (rows : List LocationRow) (r : LocationRow) (parent : Option String)
    → is_parent (r ∷ rows) parent ≡ true
    → is_parent (rows ++ r ∷ []) parent ≡ true
is_parent-snoc rows r none h = refl
is_parent-snoc rows r (some id) h =
    exists-snoc (λ l. same l.id id) rows r ∙ or_swap (same r.id id) (has_location rows id) h

is_parent-cons :
    (rows : List LocationRow) (r : LocationRow) (parent : Option String)
    → is_parent rows parent ≡ true
    → is_parent (r ∷ rows) parent ≡ true
is_parent-cons rows r none h = refl
is_parent-cons rows r (some id) h = ground (arith, h)

pub with_new_location-IsConsistent :
    (row : LocationRow) (t : Store)
    → has_object t.objects row.object_id ≡ true
    → has_location t.locations row.id ≡ false
    → exists (at_path row.volume_id row.path) t.locations ≡ false
    → is_parent (row ∷ t.locations) row.parent_id ≡ true
    → IsConsistent t
    → IsConsistent (record t { locations = t.locations ++ row ∷ [] })
with_new_location-IsConsistent row t o n f p c = record {
  object_ids = c.object_ids;
  location_ids =
      Unique-snoc (λ l. l.id) t.locations row (fresh (λ l. l.id) row.id t.locations n)
        c.location_ids;
  places =
      Unique-snoc place t.locations row (fresh_place row.volume_id row.path t.locations f) c.places;
  junctions = c.junctions;
  cursor_keys = c.cursor_keys;
  states = c.states;
  owned = All-snoc (λ l. has_object t.objects l.object_id ≡ true) t.locations row c.owned o;
  parents =
      All-snoc (λ l. is_parent (t.locations ++ row ∷ []) l.parent_id ≡ true) t.locations row
        (All-mono
          (λ l h.
            is_parent-snoc t.locations row l.parent_id
              (is_parent-cons t.locations row l.parent_id h))
          t.locations c.parents)
        (is_parent-snoc t.locations row row.parent_id p);
  tagged = c.tagged;
  known_tags = c.known_tags;
}

-- An update of locations that keeps their ids, places and parents, to objects that are there.
pub with_updated_locations-IsConsistent :
    (p : LocationRow → Bool) (change : LocationRow → LocationRow) (t : Store)
    → ((l : LocationRow) → (change l).id ≡ l.id)
    → ((l : LocationRow) → place (change l) ≡ place l)
    → ((l : LocationRow) → (change l).parent_id ≡ l.parent_id)
    → ((l : LocationRow) → p l ≡ true → has_object t.objects (change l).object_id ≡ true)
    → IsConsistent t
    → IsConsistent (record t { locations = update_where p change t.locations })
with_updated_locations-IsConsistent p change t same_id same_place same_parent has c = record {
  object_ids = c.object_ids;
  location_ids = Unique-update_where (λ l. l.id) p change same_id t.locations c.location_ids;
  places = Unique-update_where place p change same_place t.locations c.places;
  junctions = c.junctions;
  cursor_keys = c.cursor_keys;
  states = c.states;
  owned = All-update_where p change (λ l h _. has l h) (λ _ _ h. h) t.locations c.owned;
  parents =
      All-update_where p change (λ l _ h. rw (same_parent l) (stays l.parent_id h))
        (λ l _ h. stays l.parent_id h) t.locations c.parents;
  tagged = c.tagged;
  known_tags = c.known_tags;
}
  where
    stays :
        (parent : Option String)
        → is_parent t.locations parent ≡ true
        → is_parent (update_where p change t.locations) parent ≡ true
    stays none h = refl
    stays (some id) h =
        exists-update_where (λ l. same l.id id) p change (λ l. ap (λ i. same i id) (same_id l))
          t.locations
        ∙ h

-- The insert of `upsert_location`, on the connection that checks the foreign keys.
pub upsert_location-Good :
    (row : LocationRow) (t : Store) → IsConsistent t → Good (upsert_location row t)
unfolding upsert_location insert_location
upsert_location-Good row t c = elim (Bool-cases (has_object t.objects row.object_id)) [
  | inr f ↦ rw f tt
  | inl o ↦ elim (Bool-cases (exists (at_path row.volume_id row.path) t.locations)) [
    | inl h ↦
        rw (o, h)
          (with_updated_locations-IsConsistent (at_path row.volume_id row.path) (merge_location row)
            t (λ _. refl) (λ _. refl) (λ _. refl) (λ _ _. o) c)
    | inr f ↦ elim (Bool-cases (has_location t.locations row.id)) [
      | inl h ↦ rw (o, f, h) tt
      | inr n ↦ elim (Bool-cases (is_parent (row ∷ t.locations) row.parent_id)) [
        | inr h ↦ rw (o, f, n, h) tt
        | inl p ↦ rw (o, f, n, p) (with_new_location-IsConsistent row t o n f p c)
      ]
    ]
  ]
]

pub insert_new-Good : (row : LocationRow) (t : Store) → IsConsistent t → Good (insert_new row t)
unfolding insert_new
insert_new-Good row t c = elim (Bool-cases (has_object t.objects row.object_id)) [
  | inr f ↦ rw f tt
  | inl o ↦ elim (Bool-cases (has_location t.locations row.id)) [
    | inl f ↦ rw (o, f) tt
    | inr n ↦ elim (Bool-cases (exists (at_path row.volume_id row.path) t.locations)) [
      | inl h ↦ rw (o, n, h) tt
      | inr f ↦ elim (Bool-cases (is_parent (row ∷ t.locations) row.parent_id)) [
        | inr h ↦ rw (o, n, f, h) tt
        | inl p ↦ rw (o, n, f, p) (with_new_location-IsConsistent row t o n f p c)
      ]
    ]
  ]
]
