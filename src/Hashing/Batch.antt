-- ===== src/Hashing/Batch.antt =====
-- What a batch of crates/object-pipeline/src/hasher.rs gives for each of its entries.
use mathlib.Core.List.{append_assoc}
use hypr_drive.Prelude.{
  ℕ, suc, ◌+◌, ◌≡◌, refl, sym, ap, ◌∙◌, Bool, true, false, Option, some, none, String, List, [],
  ◌∷◌, ◌++◌, map, length, length-append, set, arith, if◌then◌else◌,
}
use hypr_drive.Prelude.Results.{Result, ok, err}
use hypr_drive.Changes.{IndexEntry}
use hypr_drive.Hashing.{
  Cache, HashResult, Hasher, Slot, filled, placeholder, Totals, no_totals, first, rest, known,
  get_batch, key_of, classify, hash_one, fill, count, fresh_result, collect, filled_only,
  cached_or_none, hash_entries_batch, batch_result, needed, slot_of, is_hit,
}

set-append :
    {A : Type 0} (xs ys : List A) (x y : A) → set (xs ++ x ∷ ys) (length xs) y ≡ xs ++ y ∷ ys
set-append [] ys x y = refl
set-append (z ∷ xs) ys x y = ap (◌∷◌ z) (set-append xs ys x y)

-- One more element before the others.
snoc_assoc : {A : Type 0} (xs ys : List A) (x : A) → (xs ++ x ∷ []) ++ ys ≡ xs ++ x ∷ ys
snoc_assoc xs ys x = append_assoc xs (x ∷ []) ys

length-snoc : {A : Type 0} (xs : List A) (x : A) → length (xs ++ x ∷ []) ≡ suc (length xs)
length-snoc xs x = omega (arith, length-append xs (x ∷ []))

module _ (h : Hasher) (volume_id : String) (defer : Bool) where
  abbrev pub hashed_slot : ℕ → Result String (ℕ × Bool) → Slot
  hashed_slot i (ok found) = filled (fresh_result h volume_id defer i found)
  hashed_slot i (err _) = placeholder i

  -- The slot of one entry in the end: a function of the entry, its index and its cached value.
  abbrev pub final_slot : ℕ → IndexEntry → Option HashResult → Slot
  final_slot i e (some r) = filled r
  final_slot i e none = hashed_slot i (hash_one h volume_id defer e)

  abbrev pub final_slots : ℕ → List IndexEntry → List (Option String) → List Slot
  final_slots i [] cached = []
  final_slots i (e ∷ entries) cached =
      final_slot i e (known h volume_id defer i e (first cached))
      ∷ final_slots (suc i) entries (rest cached)

  abbrev tally_one : ℕ → IndexEntry → Option HashResult → Totals → Totals
  tally_one i e (some r) t = t
  tally_one i e none t = count h volume_id defer i e (hash_one h volume_id defer e) t

  abbrev tally : ℕ → List IndexEntry → List (Option String) → Totals → Totals
  tally i [] cached t = t
  tally i (e ∷ entries) cached t =
      tally (suc i) entries (rest cached)
        (tally_one i e (known h volume_id defer i e (first cached)) t)

  fill_lem :
      (pre slots : List Slot) (i : ℕ) (r : Result String (ℕ × Bool))
      → length pre ≡ i
      → fill h volume_id defer i r (pre ++ placeholder i ∷ slots) ≡ pre ++ hashed_slot i r ∷ slots
  fill_lem pre slots i (ok found) p = rw (← p) (set-append pre slots _ _)
  fill_lem pre slots i (err _) p = refl

  -- The work on the entries behind the first `length pre`, whatever the slots before.
  abbrev Works : ℕ → List IndexEntry → List (Option String) → Type 0
  Works i entries cached =
      (pre : List Slot) (t : Totals)
      → length pre ≡ i
      → collect h volume_id defer (classify h volume_id defer i entries cached).1
          (pre ++ (classify h volume_id defer i entries cached).0) t
        ≡ (pre ++ final_slots i entries cached, tally i entries cached t)

  -- One slot more before the others.
  Works-after :
      (i : ℕ) (entries : List IndexEntry) (cached : List (Option String))
      → Works (suc i) entries cached
      → (pre : List Slot) (x : Slot) (t : Totals) → length pre ≡ i
      → collect h volume_id defer
          (classify h volume_id defer (suc i) entries cached).1
          (pre ++ x ∷ (classify h volume_id defer (suc i) entries cached).0)
          t
        ≡ (pre ++ x ∷ final_slots (suc i) entries cached, tally (suc i) entries cached t)
  Works-after i entries cached works pre x t p =
      let (slots, needs, hits) = classify h volume_id defer (suc i) entries cached in
      ap (λ s. collect h volume_id defer needs s t) (sym (snoc_assoc pre slots x))
      ∙ works (pre ++ x ∷ []) t (length-snoc pre x ∙ ap suc p)
      ∙ ap (λ s. (s, tally (suc i) entries cached t))
          (snoc_assoc pre (final_slots (suc i) entries cached) x)

  collect-classify :
      (i : ℕ) (entries : List IndexEntry) (cached : List (Option String)) → Works i entries cached
  unfolding classify collect
  collect-classify i [] cached pre t p = refl
  collect-classify i (e ∷ entries) cached pre t p =
      elim (known h volume_id defer i e (first cached))
        as (λ o.
          collect h volume_id defer
            (needed h volume_id defer i e o
              (classify h volume_id defer (suc i) entries (rest cached)).1)
            (pre
              ++ slot_of h volume_id defer i o
                ∷ (classify h volume_id defer (suc i) entries (rest cached)).0)
            t
          ≡ (
            pre ++ final_slot i e o ∷ final_slots (suc i) entries (rest cached),
            tally (suc i) entries (rest cached) (tally_one i e o t),
          )) [
            | none ↦
                ap
                  (λ s.
                    collect h volume_id defer
                      (classify h volume_id defer (suc i) entries (rest cached)).1 s
                      (count h volume_id defer i e (hash_one h volume_id defer e) t))
                  (fill_lem pre (classify h volume_id defer (suc i) entries (rest cached)).0 i
                    (hash_one h volume_id defer e) p)
                ∙ (Works-after i entries (rest cached)
                    (collect-classify (suc i) entries (rest cached)) pre
                    (hashed_slot i (hash_one h volume_id defer e))
                    (count h volume_id defer i e (hash_one h volume_id defer e) t) p)
            | some r ↦
                Works-after i entries (rest cached) (collect-classify (suc i) entries (rest cached))
                  pre (filled r) t p
          ]

  -- The values that the cache has for the entries, none if it cannot be read.
  abbrev pub cached_values : List IndexEntry → Cache → List (Option String)
  cached_values entries cache =
      cached_or_none h volume_id defer entries
        (get_batch cache (map (key_of h volume_id defer) entries))

  collected_lem :
      (entries : List IndexEntry) (cache : Cache)
      → (hash_entries_batch h volume_id defer entries cache).0
        ≡ batch_result h volume_id defer
            (classify h volume_id defer 0 entries (cached_values entries cache)).2
            (
              final_slots 0 entries (cached_values entries cache),
              tally 0 entries (cached_values entries cache) no_totals,
            )
  unfolding hash_entries_batch classify
  collected_lem [] cache = refl
  collected_lem (e ∷ entries) cache =
      let cached = cached_values (e ∷ entries) cache in
      ap (batch_result h volume_id defer (classify h volume_id defer 0 (e ∷ entries) cached).2)
        (collect-classify 0 (e ∷ entries) cached [] no_totals refl)

  -- The results of a batch are, in the order of the entries, those of each entry by itself: what is
  -- known of it from its cached value or because it is a directory, or else what its hashing
  -- gives, and nothing where that fails.
  pub hash_entries_batch-each :
      (entries : List IndexEntry) (cache : Cache)
      → (hash_entries_batch h volume_id defer entries cache).0.results
        ≡ filled_only h volume_id defer (final_slots 0 entries (cached_values entries cache))
  hash_entries_batch-each entries cache = ap (λ b. b.results) (collected_lem entries cache)

  abbrev pub directories : List IndexEntry → ℕ
  directories [] = 0
  directories (e ∷ entries) = (if e.is_dir then 1 else 0) + directories entries

  abbrev counted : Totals → ℕ
  counted t = t.hashed + t.deferred + t.skipped

  one_more :
      (i : ℕ) (e : IndexEntry) (t : Totals)
      → counted (count h volume_id defer i e (hash_one h volume_id defer e) t) ≡ suc (counted t)
  one_more i e t = by_result (hash_one h volume_id defer e)
    where
      by_result :
          (r : Result String (ℕ × Bool))
          → counted (count h volume_id defer i e r t) ≡ suc (counted t)
      by_result (ok (id, true)) = omega arith
      by_result (ok (id, false)) = omega arith
      by_result (err message) = omega arith

  entry_counts :
      (i : ℕ) (e : IndexEntry) (cached : Option String) (t : Totals)
      → counted (tally_one i e (known h volume_id defer i e cached) t)
          + is_hit h volume_id defer e (known h volume_id defer i e cached)
          + (if e.is_dir then 1 else 0)
        ≡ suc (counted t)
  unfolding known
  entry_counts i e cached t = ground (arith, one_more i e t)

  tally_counts :
      (i : ℕ) (entries : List IndexEntry) (cached : List (Option String)) (t : Totals)
      → counted (tally i entries cached t)
          + (classify h volume_id defer i entries cached).2
          + directories entries
        ≡ counted t + length entries
  unfolding classify
  tally_counts i [] cached t = omega arith
  tally_counts i (e ∷ entries) cached t = omega (
    arith,
    entry_counts i e (first cached) t,
    tally_counts (suc i) entries (rest cached)
        (tally_one i e (known h volume_id defer i e (first cached)) t),
  )

  slot_counts :
      (i : ℕ) (e : IndexEntry) (o : Option HashResult) (slots : List Slot) (t : Totals)
      → (length (filled_only h volume_id defer (final_slot i e o ∷ slots))
            + (tally_one i e o t).skipped
          ≡ suc (length (filled_only h volume_id defer slots)) + t.skipped)
        × (length (tally_one i e o t).errors + t.skipped
            ≡ (tally_one i e o t).skipped + length t.errors)
  unfolding filled_only
  slot_counts i e (some r) slots t = (omega arith, omega arith)
  slot_counts i e none slots t = by_result (hash_one h volume_id defer e)
    where
      by_result :
          (r : Result String (ℕ × Bool))
          → (length (filled_only h volume_id defer (hashed_slot i r ∷ slots))
                + (count h volume_id defer i e r t).skipped
              ≡ suc (length (filled_only h volume_id defer slots)) + t.skipped)
            × (length (count h volume_id defer i e r t).errors + t.skipped
                ≡ (count h volume_id defer i e r t).skipped + length t.errors)
      by_result (ok (id, true)) = (omega arith, omega arith)
      by_result (ok (id, false)) = (omega arith, omega arith)
      by_result (err message) = (omega arith, omega (arith, length-snoc t.errors (i, message)))

  final_counts :
      (i : ℕ) (entries : List IndexEntry) (cached : List (Option String)) (t : Totals)
      → (length (filled_only h volume_id defer (final_slots i entries cached))
            + (tally i entries cached t).skipped
          ≡ length entries + t.skipped)
        × (length (tally i entries cached t).errors + t.skipped
            ≡ (tally i entries cached t).skipped + length t.errors)
  unfolding filled_only
  final_counts i [] cached t = (omega arith, omega arith)
  final_counts i (e ∷ entries) cached t =
      let r = known h volume_id defer i e (first cached) in
      let (slots, errors) = slot_counts i e r (final_slots (suc i) entries (rest cached)) t in
      let (slots', errors') = final_counts (suc i) entries (rest cached) (tally_one i e r t) in
      (omega (arith, slots, slots'), omega (arith, errors, errors'))

  -- The counters of a batch add up: every entry has a result or is skipped, with one error for each
  -- that is skipped; and the results are the directories, the cache hits, the hashed files and the
  -- deferred ones.
  pub hash_entries_batch-counts :
      (entries : List IndexEntry) (cache : Cache)
      → let b = (hash_entries_batch h volume_id defer entries cache).0 in
        (length b.results + b.skipped ≡ length entries)
        × (length b.errors ≡ b.skipped)
        × (directories entries + b.cache_hits + b.hashed + b.deferred ≡ length b.results)
  hash_entries_batch-counts entries cache =
      let cached = cached_values entries cache in
      rw (collected_lem entries cache) (
        omega (arith, final_counts 0 entries cached no_totals),
        omega (arith, final_counts 0 entries cached no_totals),
        omega (
          arith,
          final_counts 0 entries cached no_totals,
          tally_counts 0 entries cached no_totals,
        ),
      )
