-- ===== src/Store/Preserved.antt =====
-- Every query of core/src/db/queries.rs that checks the foreign keys keeps the constraints of
-- core/migrations.
use hypr_drive.Prelude.{
  ◌≡◌, ◌≢◌, refl, ap, ◌∙◌, Bool, true, false, Option, some, none, String, List, [], ◌∷◌, ◌++◌,
  arith, Bool-cases, inl, inr,
}
use hypr_drive.Prelude.HashMap.{All}
use hypr_drive.Store.Rows.{update_where, exists, same, same_iff}
use hypr_drive.Store.Rows.Existence.{
  All-mono, All-update_where, All-snoc, exists-All, exists-snoc, exists-update_where,
}
use hypr_drive.Store.Rows.Unique.{Unique, Unique-update_where, Unique-snoc}
use hypr_drive.Store.{ObjectRow, Store, content, is_hash_state, has_object}
use hypr_drive.Store.Upserts.{merge_object, upsert_object}
use hypr_drive.Store.Consistent.{IsConsistent}

-- Either the statement is refused, or its result is consistent.
abbrev pub Good : Option Store → Type 0
Good none = Unit
Good (some t) = IsConsistent t

-- A key that no row has is fresh.
pub fresh :
    {A : Type 0} (key : A → String) (k : String) (rows : List A)
    → exists (λ r. same (key r) k) rows ≡ false
    → All (λ r. key r ≢ k) rows
fresh key k rows h =
    All-mono (λ r f e. let t = (same_iff (key r) k).1 e in absurd (cc)) rows
      (exists-All (λ r. same (key r) k) rows h)

-- More objects own what they owned before.
module _ (t : Store) (objects : List ObjectRow)
    (more : (id : String) → has_object t.objects id ≡ true → has_object objects id ≡ true) where
  pub with_objects-IsConsistent :
      IsConsistent t
      → Unique (λ o. o.id) objects
      → All (λ o. is_hash_state o.hash_state ≡ true) objects
      → IsConsistent (record t { objects = objects })
  with_objects-IsConsistent c u s = record {
    object_ids = u;
    location_ids = c.location_ids;
    places = c.places;
    junctions = c.junctions;
    cursor_keys = c.cursor_keys;
    states = s;
    owned = All-mono (λ l h. more l.object_id h) t.locations c.owned;
    parents = c.parents;
    tagged = All-mono (λ e h. more e.1 h) t.tags_on_objects c.tagged;
    known_tags = c.known_tags;
  }

pub with_new_object-IsConsistent :
    (row : ObjectRow) (t : Store)
    → has_object t.objects row.id ≡ false
    → is_hash_state row.hash_state ≡ true
    → IsConsistent t
    → IsConsistent (record t { objects = t.objects ++ row ∷ [] })
with_new_object-IsConsistent row t n s c =
    with_objects-IsConsistent t (t.objects ++ row ∷ [])
      (λ id h. exists-snoc (λ o. same o.id id) t.objects row ∙ (ground (arith, h))) c
      (Unique-snoc (λ o. o.id) t.objects row (fresh (λ o. o.id) row.id t.objects n) c.object_ids)
      (All-snoc (λ o. is_hash_state o.hash_state ≡ true) t.objects row c.states s)

pub with_updated_objects-IsConsistent :
    (p : ObjectRow → Bool) (change : ObjectRow → ObjectRow) (t : Store)
    → ((o : ObjectRow) → (change o).id ≡ o.id)
    → ((o : ObjectRow)
        → is_hash_state o.hash_state ≡ true
        → is_hash_state (change o).hash_state ≡ true)
    → IsConsistent t
    → IsConsistent (record t { objects = update_where p change t.objects })
with_updated_objects-IsConsistent p change t same_id state c =
    with_objects-IsConsistent t (update_where p change t.objects)
      (λ id h.
        exists-update_where (λ o. same o.id id) p change (λ o. ap (λ i. same i id) (same_id o))
          t.objects
        ∙ h)
      c (Unique-update_where (λ o. o.id) p change same_id t.objects c.object_ids)
      (All-update_where p change (λ o _ h. state o h) (λ _ _ h. h) t.objects c.states)

pub upsert_object-Good : (row : ObjectRow) (t : Store) → IsConsistent t → Good (upsert_object row t)
unfolding upsert_object
upsert_object-Good row t c = elim (Bool-cases (is_hash_state row.hash_state)) [
  | inr f ↦ rw f tt
  | inl s ↦ elim (Bool-cases (has_object t.objects row.id)) [
    | inl h ↦
        rw (s, h)
          (with_updated_objects-IsConsistent (λ o. same o.id row.id) (merge_object row) t
            (λ _. refl) merged c)
    | inr n ↦ rw (s, n) (with_new_object-IsConsistent row t n s c)
  ]
]
  where
    merged :
        (o : ObjectRow)
        → is_hash_state o.hash_state ≡ true
        → is_hash_state (merge_object row o).hash_state ≡ true
    merged o h = elim (Bool-cases (same row.hash_state content)) [
      | inl e ↦ rw e refl
      | inr n ↦ rw n h
    ]
