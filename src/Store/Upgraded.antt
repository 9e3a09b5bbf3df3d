-- ===== src/Store/Upgraded.antt =====
-- What `upgrade_deferred_object` of core/src/db/queries.rs changes.
use hypr_drive.Prelude.{
  ◌≡◌, ◌≢◌, refl, sym, ◌∙◌, Bool, true, false, not, ◌&&◌, ◌||◌, Option, some, none, String, List,
  [], ◌∷◌, Bool-cases, inl, inr,
}
use mathlib.Core.Option.{some-injective}
use hypr_drive.Prelude.HashMap.{All}
use hypr_drive.Store.Rows.{keep, update_where, exists, first_where, same, same_iff}
use hypr_drive.Store.Rows.Existence.{
  All-mono, exists-snoc, exists_mono, exists-keep_none, exists-kept, All-keep, exists-updated,
  exists-updated_same,
}
use hypr_drive.Store.Rows.Unique.{Unique}
use hypr_drive.Store.{ObjectRow, Store, has_object, content, deferred}
use hypr_drive.Store.Deferred.{insert_content, repoint, is_deferred}
use hypr_drive.Store.Orphans.{exists-false}

-- The object of an id, with its real hash.
abbrev pub is_content : String → ObjectRow → Bool
is_content id o = same o.id id && same o.hash_state content

module _ (a b : String) (n : same a b ≡ false) where
  -- A row with one id does not have the other.
  pub other_id : (o : ObjectRow) → same o.id a ≡ true → same o.id b ≡ false
  other_id o h = elim (Bool-cases (same o.id b)) [
    | inr f ↦ f
    | inl e ↦
        let p = sym ((same_iff o.id a).0 h) ∙ (same_iff o.id b).0 e in
        let t = (same_iff a b).1 p in absurd (cc)
  ]

pub and_left : (a b : Bool) → (a && b) ≡ true → a ≡ true
and_left true b h = refl
and_left false b h = h

same_refl : (s : String) → same s s ≡ true
same_refl s = (same_iff s s).1 refl

pub exists-deferred :
    (id : String) (rows : List ObjectRow) {o : ObjectRow}
    → first_where (λ o. same o.id id) rows ≡ some o
    → same o.hash_state deferred ≡ true
    → exists (is_deferred id) rows ≡ true
exists-deferred id [] e h = cc
exists-deferred id (r ∷ rows) {o} e h = elim (Bool-cases (same r.id id)) [
  | inl t ↦
      let q = some-injective r o (rw t at e) in
      let d : same r.hash_state deferred ≡ true = rw q h in rw (t, d) refl
  | inr f ↦ rw f (exists-deferred id rows (rw f at e) h)
]

-- Where an id is unique, its one row is deferred and nothing else has the id.
-- An id that no row has.
pub no_object :
    (id k : String) (rows : List ObjectRow)
    → k ≡ id
    → All (λ o. o.id ≢ k) rows
    → All (λ o. same o.id id ≡ false) rows
no_object id k rows e h = All-mono (λ o n. differs o n) rows h
  where
    differs : (o : ObjectRow) → o.id ≢ k → same o.id id ≡ false
    differs o n = elim (Bool-cases (same o.id id)) [
      | inl t ↦ absurd (n ((same_iff o.id id).0 t ∙ sym e))
      | inr f ↦ f
    ]

pub only_deferred :
    (id : String) (rows : List ObjectRow)
    → Unique (λ o. o.id) rows
    → exists (is_deferred id) rows ≡ true
    → has_object (keep (λ o. not (is_deferred id o)) rows) id ≡ false
only_deferred id [] u h = refl
only_deferred id (r ∷ rows) u h = elim (Bool-cases (is_deferred id r)) [
  | inl t ↦
      let e = (same_iff r.id id).0 (and_left (same r.id id) (same r.hash_state deferred) t) in
      rw t (
        exists-false (λ o. same o.id id) (keep (λ o. not (is_deferred id o)) rows)
          (All-keep (λ o. not (is_deferred id o)) (λ _ _ n. n) rows (no_object id r.id rows e u.0)))
  | inr f ↦ elim (Bool-cases (same r.id id)) [
    | inr n ↦ rw (f, n) (only_deferred id rows u.1 (rw f at h))
    | inl t ↦
        let k =
          exists_mono (is_deferred id) (λ o. same o.id id)
            (λ o. and_left (same o.id id) (same o.hash_state deferred)) rows (rw f at h) in
        let n =
          exists-false (λ o. same o.id id) rows
            (no_object id r.id rows ((same_iff r.id id).0 t) u.0) in
        absurd (cc)
  ]
]

module _ (id other : String) (rows : List ObjectRow) where
  -- The objects deleted have the one id.
  pub has_object-deleted :
      exists (is_deferred id) rows ≡ true
      → has_object (keep (is_deferred id) rows) other ≡ same id other
  has_object-deleted h = elim (Bool-cases (same id other)) [
    | inl e ↦
        exists-kept (is_deferred id) (λ o. same o.id other)
          (λ o k. (same_iff o.id other).1 (
            (same_iff o.id id).0 (and_left (same o.id id) (same o.hash_state deferred) k)
            ∙ (same_iff id other).0 e))
          rows h
        ∙ sym e
    | inr n ↦
        exists-keep_none (is_deferred id) (λ o. same o.id other)
          (λ o k. other_id id other n o (and_left (same o.id id) (same o.hash_state deferred) k))
          rows
        ∙ sym n
  ]

pub same_sym : (a b : String) → same a b ≡ false → same b a ≡ false
same_sym a b n = elim (Bool-cases (same b a)) [
  | inr f ↦ f
  | inl e ↦ let t = (same_iff a b).1 (sym ((same_iff b a).0 e)) in absurd (cc)
]

-- The store after the upgrade of one object to another.
pub record IsUpgraded (old_id new_id : String) (t u : Store) : Type 0 where
  pub locations :
      u.locations
      ≡ update_where
          (λ l. same l.object_id old_id)
          (λ l. record l { object_id = new_id })
          t.locations
  pub hashed : exists (is_content new_id) u.objects ≡ true
  pub replaced : has_object u.objects old_id ≡ false
  pub tags_on_objects : u.tags_on_objects ≡ keep (λ e. not (same old_id e.1)) t.tags_on_objects

module _ (now old_id new_id : String) (n : same old_id new_id ≡ false) where
  -- The new object is there, with a real hash.
  pub inserted-content :
      (o : ObjectRow) (objects : List ObjectRow)
      → exists (is_content new_id) (insert_content now new_id (some o) objects) ≡ true
  inserted-content o objects = elim (Bool-cases (has_object objects new_id)) [
    | inl h ↦ rw h (
        exists-updated (λ o. same o.id new_id) (is_content new_id)
          (λ o. record o { hash_state = content; updated_at = now }) (λ o e. rw e refl) objects h)
    | inr f ↦
        let r : ObjectRow = record o { id = new_id; updated_at = now; hash_state = content } in
        rw f (
          exists-snoc (is_content new_id) objects r
          ∙ (rw (same_refl new_id) (or_true (exists (is_content new_id) objects))))
  ]
    where
      or_true : (b : Bool) → (b || true) ≡ true
      or_true true = refl
      or_true false = refl

  -- Nothing deferred with the old id comes or goes for the time being.
  pub inserted-deferred_same :
      (o : Option ObjectRow) (objects : List ObjectRow)
      → exists (is_deferred old_id) (insert_content now new_id o objects)
        ≡ exists (is_deferred old_id) objects
  inserted-deferred_same none objects = refl
  inserted-deferred_same (some o) objects = elim (Bool-cases (has_object objects new_id)) [
    | inl h ↦ rw h (
        exists-updated_same (λ o. same o.id new_id) (is_deferred old_id)
          (λ o. record o { hash_state = content; updated_at = now })
          (λ o e. rw (other_id new_id old_id (same_sym old_id new_id n) o e) refl) objects)
    | inr f ↦
        let r : ObjectRow = record o { id = new_id; updated_at = now; hash_state = content } in
        rw f (
          exists-snoc (is_deferred old_id) objects r
          ∙ (rw (same_sym old_id new_id n) (or_false (exists (is_deferred old_id) objects))))
  ]
    where
      or_false : (b : Bool) → (b || false) ≡ b
      or_false true = refl
      or_false false = refl

  -- The old one stays.
  pub inserted-deferred :
      (o : ObjectRow) (objects : List ObjectRow)
      → exists (is_deferred old_id) objects ≡ true
      → exists (is_deferred old_id) (insert_content now new_id (some o) objects) ≡ true
  inserted-deferred o objects d = inserted-deferred_same (some o) objects ∙ d

pub repoint-some :
    (new_id old_id : String) (t : Store)
    → has_object t.objects new_id ≡ true
    → repoint new_id old_id t
      ≡ some (record t {
        locations =
            update_where
              (λ l. same l.object_id old_id)
              (λ l. record l { object_id = new_id })
              t.locations;
      })
repoint-some new_id old_id t h =
    elim (Bool-cases (exists (λ l. same l.object_id old_id) t.locations)) [
      | inl e ↦ rw (e, h) refl
      | inr f ↦ rw f refl
    ]
