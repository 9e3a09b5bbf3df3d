-- ===== src/Hashing/Background/Progress.antt =====
-- The run of crates/object-pipeline/src/background_hasher.rs ends: each batch leaves fewer deferred
-- objects or is the last one.
use hypr_drive.Prelude.{
  ℕ, zero, suc, ◌+◌, ◌≤◌, ◌<◌, ◌≡◌, refl, Bool, true, false, Option, some, none, String, List, [],
  ◌∷◌, ◌==◌, arith, Bool-cases, inl, inr,
}
use hypr_drive.Prelude.Int.{ℤ}
use hypr_drive.Prelude.Results.{Result, ok, err}
use hypr_drive.Hashing.{Hasher}
use hypr_drive.Store.{Store}
use hypr_drive.Store.Deferred.{pending_hash_count}
use hypr_drive.Store.Pending.{Pending, upgrade_deferred_object-Pending}
use hypr_drive.Hashing.Background.{
  DeferredObjectRow, fetch_deferred_batch, BackgroundHashResult, nothing_hashed, World,
  Surroundings, settle, upgrade_row, process_row, look, process_rows, add_results, after_batch,
  after_fetch, background_loop, run_background_hasher,
}

-- The objects upgraded and those still deferred are at most `n`.
abbrev pub Within : ℕ → World × BackgroundHashResult → Type 0
Within n (w, b) = b.upgraded + pending_hash_count w.store ≤ n

module _ (s : Surroundings) (h : Hasher) where
  settle-Within :
      (row : DeferredObjectRow) (id : String) (m : Option (Bool × Store)) (w : World)
      (b : BackgroundHashResult) (n : ℕ)
      → Within n (w, b)
      → Pending (pending_hash_count w.store) m
      → Within n (settle s h row id m (w, b))
  unfolding settle
  settle-Within row id none w b n i p = i
  settle-Within row id (some (true, t)) w b n i p = omega (arith, i, p)
  settle-Within row id (some (false, t)) w b n i p = omega (arith, i, p)

  process_row-Within :
      (row : DeferredObjectRow) (n : ℕ) (w : World) (b : BackgroundHashResult)
      → Within n (w, b)
      → Within n (process_row s h row (w, b))
  unfolding process_row
  process_row-Within row n w b i = elim (Bool-cases (s.is_absolute row.path)) [
    | inl t ↦ rw t (hashed (h.hash_file row.path))
    | inr f ↦ rw f i
  ]
    where
      hashed : (r : Result String ℕ) → Within n (upgrade_row s h row r (w, b))
      hashed (err m) = unfold upgrade_row in i
      hashed (ok id) =
          unfold upgrade_row in
          settle-Within row (h.show id) _ w b n i
            (upgrade_deferred_object-Pending s.now row.object_id (h.show id) w.store)

  pub process_rows-Within :
      (rows : List DeferredObjectRow) (n : ℕ) (p : World × BackgroundHashResult)
      → Within n p
      → Within n (process_rows s h rows p)
  unfolding process_rows
  process_rows-Within [] n p i = i
  process_rows-Within (row ∷ rows) n (w, b) i = elim (Bool-cases (s.cancelled w.looks)) [
    | inl t ↦ rw t i
    | inr f ↦ rw f (
        process_rows-Within rows n (process_row s h row (look s h w, b))
          (process_row-Within row n (look s h w) b i))
  ]

  -- A run that has ended within what was deferred.
  abbrev pub Ended : ℕ → Option (BackgroundHashResult × World) → Type 0
  Ended n o =
      (r : BackgroundHashResult) × (w : World) × (o ≡ some (r, w))
      × (r.upgraded + pending_hash_count w.store ≤ n)

  module _ (n m : ℕ) (total : BackgroundHashResult)
      (again : World → BackgroundHashResult → Option (BackgroundHashResult × World))
      (ends : (w : World) (t : BackgroundHashResult)
        → pending_hash_count w.store < m
        → t.upgraded + pending_hash_count w.store ≤ n
        → Ended n (again w t)) where
    after_batch-Ended :
        (w : World) (b : BackgroundHashResult)
        → Within m (w, b)
        → total.upgraded + m ≤ n
        → Ended n (after_batch s h total again (w, b))
    after_batch-Ended w b i j = elim (Bool-cases (b.upgraded == 0)) [
      | inl t ↦ rw t (add_results s h total b, w, refl, omega (arith, i, j))
      | inr f ↦ rw f (ends w (add_results s h total b) (ground (arith, f, i)) (omega (arith, i, j)))
    ]

    after_fetch-Ended :
        (w : World) (rows : List DeferredObjectRow)
        → pending_hash_count w.store ≤ m
        → total.upgraded + m ≤ n
        → Ended n (after_fetch s h total w again rows)
    unfolding after_fetch
    after_fetch-Ended w [] i j = (total, w, refl, omega (arith, i, j))
    after_fetch-Ended w (row ∷ rows) i j =
        after_batch-Ended (process_rows s h (row ∷ rows) (w, nothing_hashed)).0
          (process_rows s h (row ∷ rows) (w, nothing_hashed)).1
          (process_rows-Within (row ∷ rows) m (w, nothing_hashed) (omega (arith, i))) j

  background_loop-Ended :
      (batch_size : ℤ) (fuel n : ℕ) (w : World) (total : BackgroundHashResult)
      → pending_hash_count w.store < fuel
      → total.upgraded + pending_hash_count w.store ≤ n
      → Ended n (background_loop s h batch_size fuel w total)
  unfolding background_loop
  background_loop-Ended batch_size zero n w total f i = absurd (omega arith)
  background_loop-Ended batch_size (suc fuel) n w total f i =
      elim (Bool-cases (s.cancelled w.looks)) [
        | inl t ↦ rw t (total, look s h w, refl, i)
        | inr t ↦ rw t (
            after_fetch-Ended n (pending_hash_count w.store) total
              (background_loop s h batch_size fuel)
              (λ w' t' p q. background_loop-Ended batch_size fuel n w' t' (omega arith) q)
              (look s h w) (fetch_deferred_batch batch_size w.store) (omega arith) i)
      ]

-- Whatever can be hashed and whenever it is cancelled, the task ends: as many rounds of its loop
-- as there are deferred objects, and one more, are enough. The objects that it counts as upgraded
-- are deferred no longer: with those still deferred they are at most as many as were deferred.
pub run_background_hasher-Ended :
    (s : Surroundings) (h : Hasher) (batch_size : ℤ) (fuel : ℕ) (w : World)
    → pending_hash_count w.store < fuel
    → Ended s h (pending_hash_count w.store) (run_background_hasher s h batch_size fuel w)
unfolding run_background_hasher
run_background_hasher-Ended s h batch_size fuel w f =
    background_loop-Ended s h batch_size fuel (pending_hash_count w.store) w nothing_hashed f
      (omega arith)
