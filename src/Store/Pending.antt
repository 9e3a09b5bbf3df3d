-- ===== src/Store/Pending.antt =====
-- The number of deferred objects in core/src/db/queries.rs, through an upgrade.
use hypr_drive.Prelude.{
  ℕ, suc, ◌≤◌, ◌≡◌, refl, Bool, true, false, not, ◌&&◌, Option, some, none, String, List, [], ◌∷◌,
  ◌++◌, arith, Bool-cases, inl, inr,
}
use hypr_drive.Store.Rows.{keep, update_where, exists, first_where, count, same}
use hypr_drive.Store.{ObjectRow, Store, has_object, content, deferred, delete_objects}
use hypr_drive.Store.Deferred.{
  pending_hash_count, insert_content, repoint, is_deferred, delete_old, upgrade_deferred_object,
}

abbrev is_pending : ObjectRow → Bool
is_pending o = same o.hash_state deferred

-- A row less where the rows of one deferred object go.
count-keep :
    (id : String) (rows : List ObjectRow)
    → count is_pending (keep (λ o. not (is_deferred id o)) rows) ≤ count is_pending rows
count-keep id [] = omega arith
count-keep id (r ∷ rows) = elim (Bool-cases (is_deferred id r)) [
  | inl t ↦ rw t (ground (arith, count-keep id rows))
  | inr f ↦ rw f (ground (arith, count-keep id rows))
]

count-deleted :
    (id : String) (rows : List ObjectRow)
    → exists (is_deferred id) rows ≡ true
    → suc (count is_pending (keep (λ o. not (is_deferred id o)) rows)) ≤ count is_pending rows
count-deleted id [] h = cc
count-deleted id (r ∷ rows) h = elim (Bool-cases (is_deferred id r)) [
  | inl t ↦
      let p : is_pending r ≡ true = and_right (same r.id id) (is_pending r) t in
      rw (t, p) (ground (arith, count-keep id rows))
  | inr f ↦ let k = count-deleted id rows (rw f at h) in rw f (ground (arith, k))
]
  where
    and_right : (a b : Bool) → (a && b) ≡ true → b ≡ true
    and_right true b h = h
    and_right false b h = cc

count-content :
    (p : ObjectRow → Bool) (now : String) (rows : List ObjectRow)
    → count is_pending
        (update_where p (λ o. record o { hash_state = content; updated_at = now }) rows)
      ≤ count is_pending rows
count-content p now [] = omega arith
count-content p now (r ∷ rows) = elim (Bool-cases (p r)) [
  | inl t ↦ rw t (ground (arith, count-content p now rows))
  | inr f ↦ rw f (ground (arith, count-content p now rows))
]

count-snoc :
    (rows : List ObjectRow) (r : ObjectRow)
    → is_pending r ≡ false
    → count is_pending (rows ++ r ∷ []) ≡ count is_pending rows
count-snoc [] r h = rw h refl
count-snoc (x ∷ rows) r h = rw (count-snoc rows r h) refl

count-insert_content :
    (now new_id : String) (o : Option ObjectRow) (rows : List ObjectRow)
    → count is_pending (insert_content now new_id o rows) ≤ count is_pending rows
count-insert_content now new_id none rows = omega arith
count-insert_content now new_id (some o) rows = elim (Bool-cases (has_object rows new_id)) [
  | inl h ↦ rw h (count-content (λ o. same o.id new_id) now rows)
  | inr f ↦ rw f (
      omega (
        arith,
        count-snoc rows (record o { id = new_id; updated_at = now; hash_state = content }) refl,
      ))
]

-- At most `n` objects are pending after an upgrade, and fewer if it has succeeded.
abbrev pub Pending : ℕ → Option (Bool × Store) → Type 0
Pending n none = Unit
Pending n (some (true, u)) = suc (pending_hash_count u) ≤ n
Pending n (some (false, u)) = pending_hash_count u ≤ n

abbrev AtMost : ℕ → Option Store → Type 0
AtMost n none = Unit
AtMost n (some u) = pending_hash_count u ≤ n

repoint-AtMost :
    (new_id old_id : String) (n : ℕ) (t : Store)
    → count is_pending t.objects ≤ n
    → AtMost n (repoint new_id old_id t)
unfolding pending_hash_count
repoint-AtMost new_id old_id n t h =
    elim (Bool-cases
      (exists (λ l. same l.object_id old_id) t.locations && not (has_object t.objects new_id))) [
        | inl e ↦ rw e tt
        | inr f ↦ rw f h
      ]

delete_old-Pending :
    (old_id : String) (n : ℕ) (m : Option Store) → AtMost n m → Pending n (delete_old old_id m)
unfolding delete_old delete_objects pending_hash_count
delete_old-Pending old_id n none h = tt
delete_old-Pending old_id n (some u) h = elim (Bool-cases (exists (is_deferred old_id) u.objects)) [
  | inl e ↦ rw e (omega (arith, h, count-deleted old_id u.objects e))
  | inr f ↦ rw f (omega (arith, h, count-keep old_id u.objects))
]

pub upgrade_deferred_object-Pending :
    (now old_id new_id : String) (t : Store)
    → Pending (pending_hash_count t) (upgrade_deferred_object now old_id new_id t)
unfolding upgrade_deferred_object delete_old delete_objects pending_hash_count
upgrade_deferred_object-Pending now old_id new_id t = elim (Bool-cases (same old_id new_id)) [
  | inl e ↦ rw e (omega arith)
  | inr f ↦ rw f (
      delete_old-Pending old_id (pending_hash_count t) _ (
        repoint-AtMost new_id old_id (pending_hash_count t) _ (
          count-insert_content now new_id (first_where (λ o. same o.id old_id) t.objects)
            t.objects)))
]
