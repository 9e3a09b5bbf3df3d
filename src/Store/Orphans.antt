-- ===== src/Store/Orphans.antt =====
-- What the deletion of objects in core/src/db/queries.rs takes with it.
use hypr_drive.Prelude.{
  ◌≡◌, refl, ap, Bool, true, false, not, ◌&&◌, Option, some, none, String, List, [], ◌∷◌, arith,
  Bool-cases, inl, inr, ◌↔◌,
}
use hypr_drive.Prelude.HashMap.{All}
use hypr_drive.Prelude.Members.{In, here, there, In-cons}
use hypr_drive.Store.Rows.{keep, exists, count, same, same_iff}
use hypr_drive.Store.Rows.Existence.{All-mono, update_where-none, keep-none, keep-all}
use hypr_drive.Store.{
  ObjectRow, LocationRow, Store, has_object, refers_to, delete_locations, delete_objects,
}
use hypr_drive.Store.Consistent.{not-eq-true}
use hypr_drive.Store.Deletes.{is_orphan, delete_orphan_objects}

-- A deletion that matches no location changes nothing.
pub delete_locations-none :
    (p : LocationRow → Bool) (t : Store)
    → exists p t.locations ≡ false
    → (delete_locations p t).locations ≡ t.locations
unfolding delete_locations
delete_locations-none p t h =
    rw (keep-none p t.locations h, keep-all p t.locations h)
      (update_where-none (λ l. refers_to [] l.parent_id) (λ l. record l { parent_id = none })
        t.locations (none_refers t.locations))
  where
    refers_to-nil : (parent : Option String) → refers_to [] parent ≡ false
    refers_to-nil none = refl
    refers_to-nil (some id) = refl

    none_refers : (rows : List LocationRow) → exists (λ l. refers_to [] l.parent_id) rows ≡ false
    none_refers [] = refl
    none_refers (l ∷ rows) = rw (refers_to-nil l.parent_id) (none_refers rows)

pub exists-false :
    {A : Type 0} (p : A → Bool) (rows : List A)
    → All (λ a. p a ≡ false) rows
    → exists p rows ≡ false
exists-false p [] h = refl
exists-false p (r ∷ rows) h = rw h.0 (exists-false p rows h.1)

pub In-keep :
    {A : Type 0} (p : A → Bool) (a : A) (rows : List A)
    → In a (keep p rows) ↔ In a rows × (p a ≡ true)
In-keep p a [] = (λ h. elim h [ ], λ (h, _). elim h [ ])
In-keep p a (r ∷ rows) = elim (Bool-cases (p r)) [
  | inl t ↦ rw t (
    λ h. elim (In-cons h) [
      | inl e ↦ (here r rows e, rw e t)
      | inr i ↦ let (n, k) = (In-keep p a rows).0 i in (there r rows n, k)
    ],
    λ (h, k). elim (In-cons h) [
      | inl e ↦ here r (keep p rows) e
      | inr i ↦ there r (keep p rows) ((In-keep p a rows).1 (i, k))
    ],
  )
  | inr t ↦ rw t (
    λ h. let (n, k) = (In-keep p a rows).0 h in (there r rows n, k),
    λ (h, k). elim (In-cons h) [
      | inl e ↦ let f = ap p e in absurd (cc)
      | inr i ↦ (In-keep p a rows).1 (i, k)
    ],
  )
]

and-not : (a b : Bool) → (a && not b) ≡ true → b ≡ false
and-not true b h = not-eq-true b h
and-not false b h = cc

module _ (ids : List String) (t : Store) where
  -- No location is of an object that is deleted as an orphan.
  orphans_are_free :
      (objects : List ObjectRow) (rows : List LocationRow)
      → All (λ l. exists (λ k. same k.object_id l.object_id) t.locations ≡ true) rows
      → exists (λ l. has_object (keep (is_orphan ids t) objects) l.object_id) rows ≡ false
  orphans_are_free objects [] h = refl
  orphans_are_free objects (l ∷ rows) h = rw (free objects) (orphans_are_free objects rows h.1)
    where
      free :
          (objects : List ObjectRow)
          → has_object (keep (is_orphan ids t) objects) l.object_id ≡ false
      free [] = refl
      free (o ∷ objects) = elim (Bool-cases (is_orphan ids t o)) [
        | inr f ↦ rw f (free objects)
        | inl f ↦ elim (Bool-cases (same o.id l.object_id)) [
          | inr n ↦ rw (f, n) (free objects)
          | inl e ↦
              let p = (same_iff o.id l.object_id).0 e in
              let k : exists (λ k. same k.object_id o.id) t.locations ≡ true = rw p h.0 in
              let n =
                and-not (exists (λ id. same id o.id) ids)
                  (exists (λ k. same k.object_id o.id) t.locations) f in
              absurd (cc)
        ]
      ]

located :
    (t : Store)
    → All (λ l. exists (λ k. same k.object_id l.object_id) t.locations ≡ true) t.locations
located t = each t.locations
  where
    each :
        (rows : List LocationRow)
        → All (λ l. exists (λ k. same k.object_id l.object_id) rows ≡ true) rows
    each [] = tt
    each (r ∷ rows) = (
      rw ((same_iff r.object_id r.object_id).1 refl) refl,
      All-mono (λ l h. ground (arith, h)) rows (each rows),
    )

-- Deleting orphans keeps every location. An object stays unless it is one of the candidates and no
-- location is of it, and the number returned is the number of those.
pub In-delete_orphan_objects :
    (ids : List String) (t : Store)
    → ((delete_orphan_objects ids t).1.locations ≡ t.locations)
      × ((delete_orphan_objects ids t).0 ≡ count (is_orphan ids t) t.objects)
      × ((o : ObjectRow)
          → In o (delete_orphan_objects ids t).1.objects
            ↔ In o t.objects × (is_orphan ids t o ≡ false))
unfolding delete_orphan_objects delete_objects
In-delete_orphan_objects [] t = (refl, none_counted t.objects, λ o. (λ h. (h, refl), λ (h, _). h))
  where
    none_counted : (rows : List ObjectRow) → 0 ≡ count (is_orphan [] t) rows
    none_counted [] = refl
    none_counted (o ∷ rows) = none_counted rows
In-delete_orphan_objects (id ∷ ids) t = (
  delete_locations-none (λ l. has_object (keep (is_orphan (id ∷ ids) t) t.objects) l.object_id) t
      (orphans_are_free (id ∷ ids) t t.objects t.locations (located t)),
  refl,
  λ o.
      let (to, from) = In-keep (λ o. not (is_orphan (id ∷ ids) t o)) o t.objects in
      (
        λ h. let (n, k) = to h in (n, not-eq-true (is_orphan (id ∷ ids) t o) k),
        λ (n, k). from (n, rw k refl),
      ),
)
