-- ===== src/Processor/Counts.antt =====
-- The counters of crates/object-pipeline/src/change_processor.rs.
use hypr_drive.Prelude.{
  ℕ, ◌+◌, ◌≤◌, ◌≡◌, refl, ◌∙◌, Bool, true, false, Bool-cases, inl, inr, Option, some, none, String,
  List, [], ◌∷◌, length, length-append, arith, ℕ_discrete,
}
use hypr_drive.Prelude.HashMap.{get, option_list}
use hypr_drive.Prelude.Results.{Result, ok, err}
use hypr_drive.Changes.{IndexEntry}
use hypr_drive.Processor.{
  ChangeStats, Database, Files, Progress, enrich, unresolved, enrich_all, seed_fid_map, error_more,
  created_more, run_pipeline, process_creates, fits_i64, delete_location, deleted_one, delete_all,
  cleaned, clean_orphans, process_deletes, moved_one, move_to, resolve_path, process_moves,
  modified_one, modify_named, modify_at, process_modifies,
}

-- The changes that have succeeded; those that have not been deletions, with the errors; and the
-- creations and modifications, with the errors.
abbrev pub successes : ChangeStats → ℕ
successes s = s.created + s.deleted + s.moved + s.modified

abbrev pub others : ChangeStats → ℕ
others s = s.created + s.moved + s.modified + s.errors

abbrev pub attempts : ChangeStats → ℕ
attempts s = s.created + s.modified + s.errors

-- What a step on `n` changes, of which `k` are creations or modifications, does to the counters.
pub record Counts (n k : ℕ) (s s' : ChangeStats) : Type 0 where
  pub successes_bound : successes s' ≤ successes s + n
  pub others_bound : others s' ≤ others s + n
  pub attempts_bound : attempts s + k ≤ attempts s'
  pub same_rescan : s'.rescan_needed ≡ s.rescan_needed

pub Counts-then :
    {n k m l : ℕ} {s s' s'' : ChangeStats}
    → Counts n k s s'
    → Counts m l s' s''
    → Counts (n + m) (k + l) s s''
Counts-then a b = record {
  successes_bound = omega (arith, a.successes_bound, b.successes_bound);
  others_bound = omega (arith, a.others_bound, b.others_bound);
  attempts_bound = omega (arith, a.attempts_bound, b.attempts_bound);
  same_rescan = b.same_rescan ∙ a.same_rescan;
}

Counts-zero : (s : ChangeStats) → Counts 0 0 s s
Counts-zero s = record {
  successes_bound = omega arith;
  others_bound = omega arith;
  attempts_bound = omega arith;
  same_rescan = refl;
}

-- An error counts for any kind of change.
Counts-error : (n : ℕ) (s : ChangeStats) → Counts n n s (record s { errors = s.errors + n })
Counts-error n s = record {
  successes_bound = omega arith;
  others_bound = omega arith;
  attempts_bound = omega arith;
  same_rescan = refl;
}

Counts-weaken :
    {n k m l : ℕ} {s s' : ChangeStats} → Counts n k s s' → n ≤ m → l ≤ k → Counts m l s s'
Counts-weaken c h h' = record {
  successes_bound = omega (arith, c.successes_bound);
  others_bound = omega (arith, c.others_bound);
  attempts_bound = omega (arith, c.attempts_bound);
  same_rescan = c.same_rescan;
}

-- The same number of changes, counted otherwise.
Counts-exact : {n m : ℕ} {s s' : ChangeStats} → n ≡ m → Counts n n s s' → Counts m m s s'
Counts-exact h c = Counts-weaken c (omega arith) (omega arith)

module _ {D : Type 0} (q : Database D) (files : Files) where
  created_more-Counts :
      (n : ℕ) (r : Result String Unit × D) (p : Progress D)
      → Counts n n p.stats (created_more q files n r p).stats
  created_more-Counts n (ok _, db) p = record {
    successes_bound = omega arith;
    others_bound = omega arith;
    attempts_bound = omega arith;
    same_rescan = refl;
  }
  created_more-Counts n (err _, db) p = Counts-error n p.stats

  run_pipeline-Counts :
      (es : List IndexEntry) (p : Progress D)
      → Counts (length es) (length es) p.stats (run_pipeline q files es p).stats
  run_pipeline-Counts [] p = Counts-zero p.stats
  run_pipeline-Counts (e ∷ es) p =
      created_more-Counts (length (e ∷ es)) (q.process_entries (e ∷ es) p.db) p

  enriched_count : (o : Option IndexEntry) → length (option_list o) + unresolved q files o ≡ 1
  enriched_count none = refl
  enriched_count (some e) = refl

  enrich_all-length :
      (m : List (ℕ × String)) (es : List IndexEntry)
      → length (enrich_all q files m es).0 + (enrich_all q files m es).1 ≡ length es
  unfolding enrich_all
  enrich_all-length m [] = refl
  enrich_all-length m (e ∷ es) =
      let r = enrich q files m e in
      omega (
        arith,
        enriched_count r,
        enrich_all-length (seed_fid_map (option_list r) m) es,
        length-append (option_list r) (enrich_all q files (seed_fid_map (option_list r) m) es).0,
      )

  pub process_creates-Counts :
      (es : List IndexEntry) (p : Progress D)
      → Counts (length es) (length es) p.stats (process_creates q files es p).stats
  unfolding process_creates
  process_creates-Counts es p =
      let (enriched, errors, m) = enrich_all q files p.fid_map es in
      Counts-exact (omega (arith, enrich_all-length p.fid_map es)) (
        Counts-then (Counts-error errors p.stats)
          (run_pipeline-Counts enriched (error_more errors (record p { fid_map = m }))))

  deleted_one-Counts :
      (fid : ℕ) (r : Result String (Option String) × D) (s : Progress D × List String)
      → (successes (deleted_one q files fid r s).0.stats ≤ successes s.0.stats + 1)
        × (others (deleted_one q files fid r s).0.stats + length (deleted_one q files fid r s).1
            ≤ others s.0.stats + length s.1 + 1)
        × (attempts s.0.stats ≤ attempts (deleted_one q files fid r s).0.stats)
        × ((deleted_one q files fid r s).0.stats.rescan_needed ≡ s.0.stats.rescan_needed)
  deleted_one-Counts fid (err _, db) (p, orphans) = (omega arith, omega arith, omega arith, refl)
  deleted_one-Counts fid (ok none, db) (p, orphans) = (omega arith, omega arith, omega arith, refl)
  deleted_one-Counts fid (ok (some id), db) (p, orphans) =
      (omega arith, omega (arith, length-append orphans (id ∷ [])), omega arith, refl)

  moved_one-Counts :
      (fid : ℕ) (path : String) (r : Result String Bool × D) (p : Progress D)
      → Counts 1 0 p.stats (moved_one q files fid path r p).stats
  moved_one-Counts fid path (ok true, db) p = record {
    successes_bound = omega arith;
    others_bound = omega arith;
    attempts_bound = omega arith;
    same_rescan = refl;
  }
  moved_one-Counts fid path (ok false, db) p =
      Counts-weaken (Counts-zero p.stats) (omega arith) (omega arith)
  moved_one-Counts fid path (err _, db) p =
      Counts-weaken (Counts-error 1 p.stats) (omega arith) (omega arith)

  move_to-Counts :
      (fid : ℕ) (name : String) (o : Option String) (p : Progress D)
      → Counts 1 0 p.stats (move_to q files fid name o p).stats
  move_to-Counts fid name none p =
      Counts-weaken (Counts-error 1 p.stats) (omega arith) (omega arith)
  move_to-Counts fid name (some path) p = elim (Bool-cases (fits_i64 fid)) [
    | inl f ↦
        rw f (moved_one-Counts fid path (q.relocate_location fid path (files.lossy name) p.db) p)
    | inr f ↦ rw f (Counts-weaken (Counts-error 1 p.stats) (omega arith) (omega arith))
  ]

  pub process_moves-Counts :
      (moves : List (ℕ × ℕ × String)) (p : Progress D)
      → Counts (length moves) 0 p.stats (process_moves q files moves p).stats
  unfolding process_moves
  process_moves-Counts [] p = Counts-zero p.stats
  process_moves-Counts ((fid, parent, name) ∷ moves) p =
      let o = resolve_path q files p.fid_map parent name in
      Counts-weaken
        (Counts-then (move_to-Counts fid name o p)
          (process_moves-Counts moves (move_to q files fid name o p)))
        (omega arith) (omega arith)

  modified_one-Counts :
      (r : Result String Unit × D) (p : Progress D)
      → Counts 1 1 p.stats (modified_one q files r p).stats
  modified_one-Counts (ok _, db) p = record {
    successes_bound = omega arith;
    others_bound = omega arith;
    attempts_bound = omega arith;
    same_rescan = refl;
  }
  modified_one-Counts (err _, db) p = Counts-error 1 p.stats

  modify_named-Counts :
      (fid size : ℕ) (path : String) (o : Option String) (p : Progress D)
      → Counts 1 1 p.stats (modify_named q files fid size path o p).stats
  modify_named-Counts fid size path none p = Counts-error 1 p.stats
  modify_named-Counts fid size path (some name) p =
      modified_one-Counts (q.process_entries (files.synthetic fid path name size ∷ []) p.db) p

  modify_at-Counts :
      (fid size : ℕ) (o : Option String) (p : Progress D)
      → Counts 1 1 p.stats (modify_at q files fid size o p).stats
  modify_at-Counts fid size none p = Counts-error 1 p.stats
  modify_at-Counts fid size (some path) p =
      modify_named-Counts fid size path (files.file_name path) p

  pub process_modifies-Counts :
      (modifies : List (ℕ × ℕ)) (p : Progress D)
      → Counts
          (length modifies)
          (length modifies)
          p.stats
          (process_modifies q files modifies p).stats
  unfolding process_modifies
  process_modifies-Counts [] p = Counts-zero p.stats
  process_modifies-Counts ((fid, size) ∷ modifies) p =
      let o = get ℕ_discrete fid p.fid_map in
      Counts-weaken
        (Counts-then (modify_at-Counts fid size o p)
          (process_modifies-Counts modifies (modify_at q files fid size o p)))
        (omega arith) (omega arith)

  delete_all-Counts :
      (ds : List (ℕ × Option String)) (s : Progress D × List String)
      → (successes (delete_all q files ds s).0.stats ≤ successes s.0.stats + length ds)
        × (others (delete_all q files ds s).0.stats + length (delete_all q files ds s).1
            ≤ others s.0.stats + length s.1 + length ds)
        × (attempts s.0.stats ≤ attempts (delete_all q files ds s).0.stats)
        × ((delete_all q files ds s).0.stats.rescan_needed ≡ s.0.stats.rescan_needed)
  unfolding delete_all
  delete_all-Counts [] s = (omega arith, omega arith, omega arith, refl)
  delete_all-Counts ((fid, path) ∷ ds) s =
      let r = delete_location q files fid path s.0.db in
      let (a, b, c, e) = deleted_one-Counts fid r s in
      let (a', b', c', e') = delete_all-Counts ds (deleted_one q files fid r s) in
      (omega (arith, a, a'), omega (arith, b, b'), omega (arith, c, c'), e' ∙ e)

  clean_orphans-counts :
      (s : Progress D × List String)
      → (successes (clean_orphans q files s).stats ≡ successes s.0.stats)
        × (others (clean_orphans q files s).stats ≤ others s.0.stats + length s.1)
        × (attempts s.0.stats ≤ attempts (clean_orphans q files s).stats)
        × ((clean_orphans q files s).stats.rescan_needed ≡ s.0.stats.rescan_needed)
  clean_orphans-counts (p, []) = (refl, omega arith, omega arith, refl)
  clean_orphans-counts (p, id ∷ ids) = by_result (q.delete_orphan_objects (id ∷ ids) p.db)
    where
      by_result :
          (r : Result String ℕ × D)
          → (successes (cleaned q files (length (id ∷ ids)) r p).stats ≡ successes p.stats)
            × (others (cleaned q files (length (id ∷ ids)) r p).stats
                ≤ others p.stats + length (id ∷ ids))
            × (attempts p.stats ≤ attempts (cleaned q files (length (id ∷ ids)) r p).stats)
            × ((cleaned q files (length (id ∷ ids)) r p).stats.rescan_needed
                ≡ p.stats.rescan_needed)
      by_result (ok _, db) = (refl, omega arith, omega arith, refl)
      by_result (err _, db) = (refl, omega arith, omega arith, refl)

  pub process_deletes-Counts :
      (ds : List (ℕ × Option String)) (p : Progress D)
      → Counts (length ds) 0 p.stats (process_deletes q files ds p).stats
  unfolding process_deletes
  process_deletes-Counts ds p =
      let (a, b, c, e) = delete_all-Counts ds (p, []) in
      let (a', b', c', e') = clean_orphans-counts (delete_all q files ds (p, [])) in
      record {
        successes_bound = omega (arith, a, a');
        others_bound = omega (arith, b, b');
        attempts_bound = omega (arith, c, c');
        same_rescan = e' ∙ e;
      }
