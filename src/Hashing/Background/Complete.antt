-- ===== src/Hashing/Background/Complete.antt =====
-- The run of crates/object-pipeline/src/background_hasher.rs where every file can be read.
use hypr_drive.Prelude.{
  ℕ, ◌≤◌, ◌≡◌, ◌≢◌, refl, sym, ap, ◌∙◌, Bool, true, false, not, ◌&&◌, Option, some, none, String,
  List, [], ◌∷◌, arith, Bool-cases, inl, inr, if◌then◌else◌,
}
use hypr_drive.Prelude.HashMap.{All}
use hypr_drive.Prelude.Members.{In, here, there, In-cons}
use hypr_drive.Prelude.Results.{Result, ok, err}
use hypr_drive.Hashing.{Hasher}
use hypr_drive.Store.{ObjectRow, LocationRow, Store, has_object, content, deferred, delete_objects}
use hypr_drive.Store.Rows.{keep, exists, first_where, same, same_iff}
use hypr_drive.Store.Rows.Existence.{All-keep, All-update_where, All-snoc}
use hypr_drive.Store.Rows.Unique.{Unique}
use hypr_drive.Store.Orphans.{In-keep}
use hypr_drive.Store.Consistent.{IsConsistent}
use hypr_drive.Store.Upgrade.{store_of, upgrade_deferred_object-Good}
use hypr_drive.Store.Preserved.{Good}
use hypr_drive.Store.Deferred.{
  insert_content, repoint, is_deferred, delete_old, upgrade_deferred_object,
}
use hypr_drive.Hashing.Background.Files.{Files, FilesAfter, upgrade-Files, least_path-In}
use hypr_drive.Hashing.Background.{
  DeferredObjectRow, group_of, least_path, deferred_groups, BackgroundHashResult, World,
  Surroundings, settle, upgrade_row, process_row, look, process_rows,
}

abbrev pub is_pending : ObjectRow → Bool
is_pending o = same o.hash_state deferred

module _ (synthetic : String → Bool) where
  -- A deferred object has a synthetic id.
  abbrev pub is_marked : ObjectRow → Bool
  is_marked o = if is_pending o then synthetic o.id else true

  abbrev pub Marked : Store → Type 0
  Marked t = All (λ o. is_marked o ≡ true) t.objects

  abbrev MarkedAfter : Option Store → Type 0
  MarkedAfter none = Unit
  MarkedAfter (some t) = Marked t

  insert_content-Marked :
      (now new_id : String) (o : Option ObjectRow) (rows : List ObjectRow)
      → All (λ o. is_marked o ≡ true) rows
      → All (λ o. is_marked o ≡ true) (insert_content now new_id o rows)
  insert_content-Marked now new_id none rows a = a
  insert_content-Marked now new_id (some o) rows a = elim (Bool-cases (has_object rows new_id)) [
    | inl t ↦ rw t (
        All-update_where (λ o. same o.id new_id)
          (λ o. record o { hash_state = content; updated_at = now }) (λ _ _ _. refl) (λ _ _ k. k)
          rows a)
    | inr f ↦ rw f (All-snoc (λ o. is_marked o ≡ true) rows _ a refl)
  ]

  repoint-Marked :
      (new_id old_id : String) (t : Store) → Marked t → MarkedAfter (repoint new_id old_id t)
  repoint-Marked new_id old_id t a =
      elim (Bool-cases
        (exists (λ l. same l.object_id old_id) t.locations && not (has_object t.objects new_id))) [
          | inl e ↦ rw e tt
          | inr f ↦ rw f a
        ]

  delete_old-Marked :
      (old_id : String) (m : Option Store)
      → MarkedAfter m
      → MarkedAfter (store_of (delete_old old_id m))
  unfolding delete_old delete_objects
  delete_old-Marked old_id none a = tt
  delete_old-Marked old_id (some t) a =
      All-keep (λ o. not (is_deferred old_id o)) (λ _ _ k. k) t.objects a

  upgrade-Marked :
      (now old_id new_id : String) (t : Store)
      → Marked t
      → MarkedAfter (store_of (upgrade_deferred_object now old_id new_id t))
  unfolding upgrade_deferred_object
  upgrade-Marked now old_id new_id t a = elim (Bool-cases (same old_id new_id)) [
    | inl e ↦ rw e a
    | inr f ↦ rw f (
        delete_old-Marked old_id _
          (repoint-Marked new_id old_id _ (insert_content-Marked now new_id _ t.objects a)))
  ]

abbrev head_path : String → List DeferredObjectRow → String
head_path d [] = d
head_path d (row ∷ rows) = row.path

abbrev head_id : String → List DeferredObjectRow → String
head_id d [] = d
head_id d (row ∷ rows) = row.object_id

pub All-at : {A : Type 0} (P : A → Type 0) (a : A) (rows : List A) → All P rows → In a rows → P a
All-at P a [] h i = elim i [ ]
All-at P a (r ∷ rows) h i = elim (In-cons i) [ inl e ↦ rw e h.0 | inr j ↦ All-at P a rows h.1 j ]

-- A location of a file that has a path.
abbrev pub FileAt : String → List LocationRow → Type 0
FileAt path locations =
    (l : LocationRow) × In l locations × (l.is_directory ≡ false) × (l.path ≡ path)

of_file : (a b : Bool) → (a && not b) ≡ true → b ≡ false
of_file true true e = cc
of_file a false e = refl
of_file false b e = cc

-- The first group is of a deferred object, at the path of a file.
pub deferred_groups-first :
    (objects : List ObjectRow) (locations : List LocationRow) (row : DeferredObjectRow)
    (rest : List DeferredObjectRow)
    → deferred_groups objects locations ≡ row ∷ rest
    → ((o : ObjectRow) × In o objects × (is_pending o ≡ true) × (o.id ≡ row.object_id))
      × FileAt row.path locations
unfolding deferred_groups
deferred_groups-first [] locations row rest e = cc
deferred_groups-first (o ∷ objects) locations row rest e = elim (Bool-cases (is_pending o)) [
  | inr f ↦ later (deferred_groups-first objects locations row rest (rw f at e))
  | inl t ↦
      grouped t (least_path (keep (λ l. same l.object_id o.id && not l.is_directory) locations))
        (λ l. least_path-In l _) (rw t at e) (deferred_groups-first objects locations row rest)
]
  where
    Found : List ObjectRow → Type 0
    Found rows =
        ((o : ObjectRow) × In o rows × (is_pending o ≡ true) × (o.id ≡ row.object_id))
        × FileAt row.path locations

    later : Found objects → Found (o ∷ objects)
    later ((p, i, d, q), file) = ((p, there o objects i, d, q), file)

    grouped :
        is_pending o ≡ true
        → (m : Option LocationRow)
        → ((l : LocationRow)
            → m ≡ some l
            → In l (keep (λ l. same l.object_id o.id && not l.is_directory) locations))
        → group_of o m (deferred_groups objects locations) ≡ row ∷ rest
        → (deferred_groups objects locations ≡ row ∷ rest → Found objects)
        → Found (o ∷ objects)
    grouped t none i e f = later (f e)
    grouped t (some l) i e f =
        let (j, k) =
          (In-keep (λ l. same l.object_id o.id && not l.is_directory) l locations).0 (i l refl) in
        (
          (o, here o objects refl, t, ap (head_id o.id) e),
          (l, j, of_file (same l.object_id o.id) l.is_directory k, ap (head_path l.path) e),
        )

pub first_where-In :
    (id : String) (o : ObjectRow) (rows : List ObjectRow)
    → Unique (λ o. o.id) rows
    → In o rows
    → o.id ≡ id
    → first_where (λ o. same o.id id) rows ≡ some o
first_where-In id o [] u i e = elim i [ ]
first_where-In id o (r ∷ rows) u i e = elim (In-cons i) [
  | inl p ↦
      let t : same r.id id ≡ true = (same_iff r.id id).1 (ap (λ o. o.id) (sym p) ∙ e) in
      rw t (ap some (sym p))
  | inr j ↦
      let n = All-at (λ s. s.id ≢ r.id) o rows u.0 j in
      elim (Bool-cases (same r.id id)) [
        | inl t ↦ absurd (n (e ∙ sym ((same_iff r.id id).0 t)))
        | inr f ↦ rw f (first_where-In id o rows u.1 j e)
      ]
]

-- Consistent tables whose deferred objects have synthetic ids and whose files are readable.
pub record IsReady (synthetic : String → Bool) (readable : String → Type 0) (t : Store)
    : Type 0 where
  pub consistent : IsConsistent t
  pub marked : Marked synthetic t
  pub files : Files readable t

module _ (s : Surroundings) (h : Hasher) (synthetic : String → Bool)
    (readable : String → Type 0) where
  settle-IsReady :
      (row : DeferredObjectRow) (id : String) (m : Option (Bool × Store)) (w : World)
      (b : BackgroundHashResult)
      → IsReady synthetic readable w.store
      → Good (store_of m)
      → MarkedAfter synthetic (store_of m)
      → FilesAfter readable (store_of m)
      → IsReady synthetic readable (settle s h row id m (w, b)).0.store
  unfolding settle
  settle-IsReady row id none w b r g a i = r
  settle-IsReady row id (some (true, t)) w b r g a i = record {
    consistent = g;
    marked = a;
    files = i;
  }
  settle-IsReady row id (some (false, t)) w b r g a i = record {
    consistent = g;
    marked = a;
    files = i;
  }

  settle-more :
      (row : DeferredObjectRow) (id : String) (m : Option (Bool × Store)) (w : World)
      (b : BackgroundHashResult)
      → b.upgraded ≤ (settle s h row id m (w, b)).1.upgraded
  unfolding settle
  settle-more row id none w b = omega arith
  settle-more row id (some (true, t)) w b = omega arith
  settle-more row id (some (false, t)) w b = omega arith

  -- One row, and any number of rows.
  pub process_row-kept :
      (row : DeferredObjectRow) (w : World) (b : BackgroundHashResult)
      → IsReady synthetic readable w.store
      → IsReady synthetic readable (process_row s h row (w, b)).0.store
        × (b.upgraded ≤ (process_row s h row (w, b)).1.upgraded)
  unfolding process_row
  process_row-kept row w b r = elim (Bool-cases (s.is_absolute row.path)) [
    | inr f ↦ rw f (r, omega arith)
    | inl t ↦ rw t (hashed (h.hash_file row.path))
  ]
    where
      hashed :
          (m : Result String ℕ)
          → IsReady synthetic readable (upgrade_row s h row m (w, b)).0.store
            × (b.upgraded ≤ (upgrade_row s h row m (w, b)).1.upgraded)
      hashed (err m) = unfold upgrade_row in (r, omega arith)
      hashed (ok id) =
          unfold upgrade_row in
          (
            settle-IsReady row (h.show id) _ w b r
                (upgrade_deferred_object-Good s.now row.object_id (h.show id) w.store r.consistent)
                (upgrade-Marked synthetic s.now row.object_id (h.show id) w.store r.marked)
                (upgrade-Files readable s.now row.object_id (h.show id) w.store r.files),
            settle-more row (h.show id) _ w b,
          )

  pub process_rows-kept :
      (rows : List DeferredObjectRow) (p : World × BackgroundHashResult)
      → IsReady synthetic readable p.0.store
      → IsReady synthetic readable (process_rows s h rows p).0.store
        × (p.1.upgraded ≤ (process_rows s h rows p).1.upgraded)
  unfolding process_rows
  process_rows-kept [] p r = (r, omega arith)
  process_rows-kept (row ∷ rows) (w, b) r = elim (Bool-cases (s.cancelled w.looks)) [
    | inl t ↦ rw t (r, omega arith)
    | inr f ↦
        let (q, l) = process_row-kept row (look s h w) b r in
        let (q', l') = process_rows-kept rows (process_row s h row (look s h w, b)) q in
        rw f (q', omega arith)
  ]
