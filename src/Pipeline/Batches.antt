-- ===== src/Pipeline/Batches.antt =====
-- The loop of crates/object-pipeline/src/pipeline.rs over its batches: it does not panic, and each
-- location has its object.
use hypr_drive.Prelude.{
  ℕ, zero, suc, ◌<◌, ◌≡◌, refl, ap, Bool, true, false, Option, some, none, String, List, [], ◌∷◌,
  length, get_elem?, arith, ◌==◌, ◌>>=◌,
}
use hypr_drive.Prelude.HashMap.{All}
use hypr_drive.Prelude.Results.{Result, ok, err}
use hypr_drive.Changes.{IndexEntry}
use hypr_drive.Hashing.{Hasher, HashResult, BatchHashResult, hash_entries_batch}
use hypr_drive.Hashing.Indices.{hash_entries_batch-in_range}
use hypr_drive.Store.{ObjectRow, LocationRow, Store, has_object}
use hypr_drive.Store.Upserts.{
  upsert_objects_batch, insert_locations, upsert_locations_batch, batch_end,
}
use hypr_drive.Pipeline.{
  PipelineConfig, PipelineBatchComplete, Paths, Index, object_row, location_row, build_rows,
  locations_done, locations_upserted, upsert_rows, with_totals, store_batch, run_chunk,
  process_chunks, unless_failed, process_entries,
}
use hypr_drive.Pipeline.Owned.{
  IsOwned, Stored, Either, upsert_objects_batch-Stored, insert_locations-Owned,
}

-- The rows of one batch: whatever holds of the ids of the objects holds of those of the locations.
record Paired (rows : List ObjectRow × List LocationRow) : Type 1 where
  pub transfer : (P : String → Type 0) → All (λ o. P o.id) rows.0 → All (λ l. P l.object_id) rows.1

get_elem?_below :
    (xs : List IndexEntry) (i : ℕ) → i < length xs → (e : IndexEntry) × (get_elem? xs i ≡ some e)
get_elem?_below [] i b = absurd (omega arith)
get_elem?_below (x ∷ xs) zero b = (x, refl)
get_elem?_below (x ∷ xs) (suc i) b = get_elem?_below xs i (omega arith)

module _ (c : PipelineConfig) (h : Hasher) (paths : Paths) (ids : List (ℕ × String)) where
  -- The rows are built without a panic.
  build_rows-Paired :
      (now : String) (chunk : List IndexEntry) (results : List HashResult)
      → All (λ r. r.index < length chunk) results
      → (rows : List ObjectRow × List LocationRow) × (build_rows c h paths ids now chunk results
          ≡ some rows)
        × Paired rows
  unfolding build_rows
  build_rows-Paired now chunk [] b = (([], []), refl, record { transfer = λ P a. tt })
  build_rows-Paired now chunk (r ∷ results) b =
      let (rows, p, k) = build_rows-Paired now chunk results b.1 in
      let (e, q) = get_elem?_below chunk r.index b.0 in
      (
        (object_row c h paths now r e ∷ rows.0, location_row c h paths ids now r e ∷ rows.1),
        rw (p, q) refl,
        record { transfer = λ P a. (a.0, k.transfer P a.1) },
      )

  locations_upserted-IsOwned :
      (rows : List LocationRow) (t : Store) (i : Index)
      → IsOwned t
      → All (λ l. has_object t.objects l.object_id ≡ true) rows
      → IsOwned (locations_upserted c h paths rows (some t) i).1.store
  unfolding upsert_locations_batch
  locations_upserted-IsOwned [] t i a b = a
  locations_upserted-IsOwned (row ∷ rows) t i a b =
      ended (insert_locations (row ∷ rows) t) (insert_locations-Owned (row ∷ rows) t a b)
    where
      ended :
          (m : Option Store)
          → Either IsOwned m
          → IsOwned (locations_done c h paths (batch_end m) (record i { store = t })).1.store
      ended none e = a
      ended (some u) e = e

  -- Whether they succeed or not, the upserts leave each location with its object.
  upsert_rows-IsOwned :
      (rows : List ObjectRow × List LocationRow) (i : Index)
      → Paired rows
      → IsOwned i.store
      → IsOwned (upsert_rows c h paths rows i).1.store
  unfolding upsert_rows
  upsert_rows-IsOwned (objects, locations) i k o =
      by_objects (upsert_objects_batch objects i.store)
        (upsert_objects_batch-Stored objects i.store o)
    where
      by_objects :
          (m : Option Store)
          → Either (Stored objects i.store) m
          → IsOwned (locations_upserted c h paths locations m i).1.store
      by_objects none e = o
      by_objects (some t) e =
          locations_upserted-IsOwned locations t i e.consistent
            (k.transfer (λ id. has_object t.objects id ≡ true) e.present)

  -- A result and an index in which each location has its object.
  abbrev pub Sound : Option (Result String PipelineBatchComplete × Index) → Type 0
  Sound o =
      (r : Result String PipelineBatchComplete) × (j : Index) × (o ≡ some (r, j)) × IsOwned j.store

  store_batch-IsOwned :
      (n : ℕ) (chunk : List IndexEntry) (r : BatchHashResult) (i : Index)
      (s : PipelineBatchComplete)
      → All (λ r. r.index < length chunk) r.results
      → IsOwned i.store
      → (p : Bool × (Index × PipelineBatchComplete)) × (store_batch c h paths ids n chunk r i s
          ≡ some p)
        × IsOwned p.1.0.store
  unfolding store_batch
  store_batch-IsOwned n chunk r i s b o =
      let (rows, p, k) = build_rows-Paired (paths.now n) chunk r.results b in
      (
        with_totals c h paths chunk r s (upsert_rows c h paths rows i),
        ap
            (λ o.
              o >>= (λ rows. some (with_totals c h paths chunk r s (upsert_rows c h paths rows i))))
            p,
        upsert_rows-IsOwned rows i k o,
      )

  process_chunks-Sound :
      (n : ℕ) (chunks : List (List IndexEntry)) (i : Index) (s : PipelineBatchComplete)
      → IsOwned i.store
      → Sound (process_chunks c h paths ids n chunks i s)
  unfolding process_chunks run_chunk
  process_chunks-Sound n [] i s o = (ok s, i, refl, o)
  process_chunks-Sound n (chunk ∷ chunks) i s o =
      let (r, cache) = hash_entries_batch h c.volume_id c.defer_content_hashing chunk i.cache in
      let ((done, (j, next)), p, k) =
        store_batch-IsOwned n chunk r (record i { cache = cache }) s
          (hash_entries_batch-in_range h c.volume_id c.defer_content_hashing chunk i.cache) o in
      rw p (
        ended done j (process_chunks c h paths ids (suc n) chunks j next) k
          (process_chunks-Sound (suc n) chunks j next k))
    where
      ended :
          (done : Bool) (j : Index) (rest : Option (Result String PipelineBatchComplete × Index))
          → IsOwned j.store
          → Sound rest
          → Sound (unless_failed c h paths j rest done)
      ended true j rest k r = r
      ended false j rest k r = (err "database", j, refl, k)

-- With batches of at least one entry the pipeline does not panic. Whatever it is given and whether
-- it succeeds or fails on the way, it keeps every constraint of the tables except the one that its
-- batches disable for good: the ids and the places of the locations stay unique, each location has
-- its object, and only a parent may be missing.
pub process_entries-IsOwned :
    (c : PipelineConfig) (h : Hasher) (paths : Paths) (entries : List IndexEntry) (i : Index)
    → 0 < c.batch_size
    → IsOwned i.store
    → (r : Result String PipelineBatchComplete) × (j : Index) × (process_entries c h paths entries i
        ≡ some (r, j))
      × IsOwned j.store
unfolding process_entries
process_entries-IsOwned c h paths [] i b o = (_, i, refl, o)
process_entries-IsOwned c h paths (e ∷ entries) i b o =
    let z : (c.batch_size == 0) ≡ false = ground (arith, b) in
    rw z (process_chunks-Sound c h paths _ 0 _ i _ o)
