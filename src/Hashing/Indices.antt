-- ===== src/Hashing/Indices.antt =====
-- The indices in the results of a batch of crates/object-pipeline/src/hasher.rs.
use hypr_drive.Prelude.{
  ℕ, suc, ◌+◌, ◌<◌, ◌≡◌, refl, Bool, Bool-cases, Option-cases, inl, inr, Option, some, none, String,
  List, [], ◌∷◌, length, arith,
}
use hypr_drive.Prelude.HashMap.{All, All-mono}
use hypr_drive.Prelude.Results.{Result, ok, err}
use hypr_drive.Changes.{IndexEntry}
use hypr_drive.Hashing.{
  Cache, Hasher, Slot, filled, placeholder, first, rest, known, hit, parsed, hash_one,
  hash_entries_batch, filled_only,
}
use hypr_drive.Hashing.Batch.{
  hashed_slot, final_slot, final_slots, cached_values, hash_entries_batch-each,
}

module _ (h : Hasher) (volume_id : String) (defer : Bool) where
  abbrev IndexIs : ℕ → Slot → Type 0
  IndexIs i (filled r) = r.index ≡ i
  IndexIs i (placeholder _) = Unit

  hashed_slot-IndexIs :
      (i : ℕ) (r : Result String (ℕ × Bool)) → IndexIs i (hashed_slot h volume_id defer i r)
  hashed_slot-IndexIs i (ok found) = refl
  hashed_slot-IndexIs i (err m) = tt

  final_slot-IndexIs :
      (i : ℕ) (e : IndexEntry) (cached : Option String)
      → IndexIs i (final_slot h volume_id defer i e (known h volume_id defer i e cached))
  unfolding known
  final_slot-IndexIs i e cached = elim (Bool-cases e.is_dir) [
    | inl t ↦ rw t refl
    | inr f ↦ simp f (by_cache cached)
  ]
    where
      by_cache :
          (cached : Option String)
          → IndexIs i (
              final_slot h volume_id defer i e
                (hit h volume_id defer i (parsed h volume_id defer cached)))
      by_cache none = hashed_slot-IndexIs i (hash_one h volume_id defer e)
      by_cache (some hex) = elim (Option-cases (h.parse hex)) [
        | inl n ↦ rw n (hashed_slot-IndexIs i (hash_one h volume_id defer e))
        | inr (id, p) ↦ rw p refl
      ]

  in_range :
      (i : ℕ) (entries : List IndexEntry) (cached : List (Option String))
      → All
          (λ r. r.index < i + length entries)
          (filled_only h volume_id defer (final_slots h volume_id defer i entries cached))
  unfolding filled_only
  in_range i [] cached = tt
  in_range i (e ∷ entries) cached =
      put (final_slot h volume_id defer i e (known h volume_id defer i e (first cached)))
        (final_slot-IndexIs i e (first cached))
        (All-mono (λ r b. omega arith) _ (in_range (suc i) entries (rest cached)))
    where
      put :
          (s : Slot)
          → IndexIs i s
          → All
              (λ r. r.index < i + suc (length entries))
              (filled_only h volume_id defer
                (final_slots h volume_id defer (suc i) entries (rest cached)))
          → All
              (λ r. r.index < i + suc (length entries))
              (filled_only h volume_id defer
                (s ∷ final_slots h volume_id defer (suc i) entries (rest cached)))
      put (filled r) e a = (omega arith, a)
      put (placeholder _) e a = a

  -- Every result of a batch is of one of its entries.
  pub hash_entries_batch-in_range :
      (entries : List IndexEntry) (cache : Cache)
      → All
          (λ r. r.index < length entries)
          (hash_entries_batch h volume_id defer entries cache).0.results
  hash_entries_batch-in_range entries cache =
      rw (hash_entries_batch-each h volume_id defer entries cache) (
        All-mono (λ r b. omega arith) _
          (in_range 0 entries (cached_values h volume_id defer entries cache)))
