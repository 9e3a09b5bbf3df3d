-- ===== src/Hashing/Background/Readable.antt =====
-- The run of crates/object-pipeline/src/background_hasher.rs to its end, where it is not cancelled
-- and every file can be read.
use hypr_drive.Prelude.{
  ℕ, zero, suc, ◌+◌, ◌≤◌, ◌<◌, ◌≡◌, refl, ap, Bool, true, false, Option, some, String, List, [],
  ◌∷◌, ◌==◌, arith, Bool-cases, inl, inr, take,
}
use mathlib.Core.Path.{subst}
use hypr_drive.Prelude.Int.{pos}
use hypr_drive.Prelude.Members.{In}
use hypr_drive.Prelude.Results.{ok}
use hypr_drive.Hashing.{Hasher}
use hypr_drive.Store.{ObjectRow}
use hypr_drive.Store.Rows.{same, same_iff}
use hypr_drive.Store.Rehash.{upgrade_deferred_object-IsUpgraded}
use hypr_drive.Store.Deferred.{pending_hash_count}
use hypr_drive.Hashing.Background.{
  DeferredObjectRow, deferred_groups, fetch_deferred_batch, BackgroundHashResult, nothing_hashed,
  World, Surroundings, settle, upgrade_row, process_row, look, process_rows, add_results,
  after_batch, after_fetch, background_loop, run_background_hasher,
}
use hypr_drive.Hashing.Background.Progress.{process_rows-Within}
use hypr_drive.Hashing.Background.Complete.{
  is_pending, is_marked, IsReady, deferred_groups-first, All-at, first_where-In, process_row-kept,
  process_rows-kept,
}

abbrev first_row : DeferredObjectRow → List DeferredObjectRow → DeferredObjectRow
first_row d [] = d
first_row d (row ∷ rows) = row

take-first :
    (n : ℕ) (groups rows : List DeferredObjectRow) (row : DeferredObjectRow)
    → take (suc n) groups ≡ row ∷ rows
    → (rest : List DeferredObjectRow) × (groups ≡ row ∷ rest)
take-first n [] rows row e = cc
take-first n (x ∷ groups) rows row e = (groups, ap (λ r. r ∷ groups) (ap (first_row x) e))

-- An absolute path of a file that can be read, whose hash is not taken for a synthetic id.
abbrev pub IsReadable : Surroundings → Hasher → (String → Bool) → String → Type 0
IsReadable s h synthetic path =
    (s.is_absolute path ≡ true)
    × ((id : ℕ) × (h.hash_file path ≡ ok id) × (synthetic (h.show id) ≡ false))

module _ (s : Surroundings) (h : Hasher) (synthetic : String → Bool)
    (calm : (k : ℕ) → s.cancelled k ≡ false) where
  abbrev Readable : String → Type 0
  Readable = IsReadable s h synthetic

  -- The first row of a batch is upgraded.
  process_row-first :
      (row : DeferredObjectRow) (w : World) (o : ObjectRow)
      → IsReady synthetic Readable w.store
      → In o w.store.objects
      → is_pending o ≡ true
      → o.id ≡ row.object_id
      → Readable row.path
      → (process_row s h row (w, nothing_hashed)).1.upgraded ≡ 1
  unfolding process_row upgrade_row settle
  process_row-first row w o r i d e (absolute, (id, read, real)) =
      let m : synthetic row.object_id ≡ true =
        rw (← e)
          (marked (All-at (λ o. is_marked synthetic o ≡ true) o w.store.objects r.marked i)) in
      let n : same row.object_id (h.show id) ≡ false = apart (h.show id) m real in
      let (u, q, _) =
        upgrade_deferred_object-IsUpgraded s.now row.object_id (h.show id) w.store o r.consistent n
          (first_where-In row.object_id o w.store.objects r.consistent.object_ids i e) d in
      simp (absolute, read, q) refl
    where
      marked : is_marked synthetic o ≡ true → synthetic o.id ≡ true
      marked k = rw d at k

      apart :
          (id : String)
          → synthetic row.object_id ≡ true
          → synthetic id ≡ false
          → same row.object_id id ≡ false
      apart id m k = elim (Bool-cases (same row.object_id id)) [
        | inr f ↦ f
        | inl t ↦ let p = ap synthetic ((same_iff row.object_id id).0 t) in absurd (cc)
      ]

  module _ (n : ℕ) where
    -- A batch upgrades at least one object.
    process_rows-first :
        (row : DeferredObjectRow) (rows : List DeferredObjectRow) (w : World)
        → IsReady synthetic Readable w.store
        → fetch_deferred_batch (pos (suc n)) w.store ≡ row ∷ rows
        → 1 ≤ (process_rows s h (row ∷ rows) (w, nothing_hashed)).1.upgraded
    unfolding process_rows fetch_deferred_batch
    process_rows-first row rows w r e =
        let (rest, g) =
          take-first n (deferred_groups w.store.objects w.store.locations) rows row e in
        let ((o, i, d, q), (l, j, f, p)) =
          deferred_groups-first w.store.objects w.store.locations row rest g in
        let file =
          All-at (λ l. l.is_directory ≡ false → Readable l.path) l w.store.locations r.files j f in
        let one = process_row-first row (look s h w) o r i d q (subst Readable p file) in
        let (r', _) = process_row-kept s h synthetic Readable row (look s h w) nothing_hashed r in
        let (_, l) =
          process_rows-kept s h synthetic Readable rows
            (process_row s h row (look s h w, nothing_hashed)) r' in
        simp (calm w.looks) (omega (arith, one, l))

    -- A run that leaves nothing to fetch.
    abbrev pub Complete : Option (BackgroundHashResult × World) → Type 0
    Complete o =
        (r : BackgroundHashResult) × (w : World) × (o ≡ some (r, w))
        × (fetch_deferred_batch (pos (suc n)) w.store ≡ [])

    background_loop-Complete :
        (fuel : ℕ) (w : World) (total : BackgroundHashResult)
        → pending_hash_count w.store < fuel
        → IsReady synthetic Readable w.store
        → Complete (background_loop s h (pos (suc n)) fuel w total)
    unfolding background_loop
    background_loop-Complete zero w total f r = absurd (omega arith)
    background_loop-Complete (suc fuel) w total f r = simp (calm w.looks) (
        fetched (fetch_deferred_batch (pos (suc n)) w.store) refl
          (λ v t b k. background_loop-Complete fuel v t (omega arith) k))
      where
        again : World → BackgroundHashResult → Option (BackgroundHashResult × World)
        again = background_loop s h (pos (suc n)) fuel

        batched :
            (v : World) (b : BackgroundHashResult)
            → 1 ≤ b.upgraded
            → b.upgraded + pending_hash_count v.store ≤ pending_hash_count w.store
            → IsReady synthetic Readable v.store
            → ((v : World) (t : BackgroundHashResult)
                → pending_hash_count v.store < pending_hash_count w.store
                → IsReady synthetic Readable v.store
                → Complete (again v t))
            → Complete (after_batch s h total again (v, b))
        batched v b l i k next =
            let z : (b.upgraded == 0) ≡ false = ground (arith, l) in
            simp z (next v (add_results s h total b) (omega arith) k)

        fetched :
            (rows : List DeferredObjectRow)
            → fetch_deferred_batch (pos (suc n)) w.store ≡ rows
            → ((v : World) (t : BackgroundHashResult)
                → pending_hash_count v.store < pending_hash_count w.store
                → IsReady synthetic Readable v.store
                → Complete (again v t))
            → Complete (after_fetch s h total (look s h w) again rows)
        fetched [] e next = unfold after_fetch in (total, look s h w, refl, e)
        fetched (row ∷ rows) e next =
            unfold after_fetch in
            batched _ _ (process_rows-first row rows (look s h w) r e)
              (process_rows-Within s h (row ∷ rows) (pending_hash_count w.store)
                (look s h w, nothing_hashed) (omega arith))
              (process_rows-kept s h synthetic Readable (row ∷ rows) (look s h w, nothing_hashed)
                r).0
              next

-- When the task is not cancelled, the tables are consistent, each deferred object has a synthetic
-- id, and each location of a file has an absolute path of a file that can be read and whose hash is
-- not taken for a synthetic id, the task ends with no deferred file left: there is nothing more to
-- fetch. Each batch fetches at least one object, and one round more than there are deferred objects
-- is enough.
pub run_background_hasher-Complete :
    (s : Surroundings) (h : Hasher) (synthetic : String → Bool) (n fuel : ℕ) (w : World)
    → ((k : ℕ) → s.cancelled k ≡ false)
    → IsReady synthetic (IsReadable s h synthetic) w.store
    → pending_hash_count w.store < fuel
    → (r : BackgroundHashResult) × (v : World) × (run_background_hasher s h (pos (suc n)) fuel w
        ≡ some (r, v))
      × (fetch_deferred_batch (pos (suc n)) v.store ≡ [])
unfolding run_background_hasher
run_background_hasher-Complete s h synthetic n fuel w calm r f =
    background_loop-Complete s h synthetic calm n fuel w nothing_hashed f r
