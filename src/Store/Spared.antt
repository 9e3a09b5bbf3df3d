-- ===== src/Store/Spared.antt =====
-- The locations under the queries of core/src/db/queries.rs that are not meant to remove any.
use hypr_drive.Prelude.{
  ◌≡◌, refl, ◌∙◌, Bool, true, false, not, ◌&&◌, ◌||◌, Option, some, none, String, List, [], ◌∷◌,
  ◌>>=◌, ℕ, Bool-cases, inl, inr,
}
use hypr_drive.Prelude.HashMap.{All}
use hypr_drive.Store.Rows.{exists, same}
use hypr_drive.Store.Rows.Existence.{exists-snoc, exists-update_where}
use hypr_drive.Store.{
  ObjectRow, LocationRow, Store, is_hash_state, has_object, has_location, is_parent, at_path,
}
use hypr_drive.Store.Upserts.{
  upsert_object, merge_location, insert_location, upsert_location, upsert_objects_batch,
  save_cursor,
}
use hypr_drive.Store.Deletes.{delete_orphan_objects}
use hypr_drive.Store.Tags.{has_tag, is_junction, add_tag, more, add_tags_batch, remove_tags_batch}
use hypr_drive.Store.Consistent.{IsConsistent}
use hypr_drive.Store.Preserved.{Good}
use hypr_drive.Store.Upgrade.{store_of}
use hypr_drive.Store.Orphans.{In-delete_orphan_objects}
use hypr_drive.Store.Kept.{is_at, Keeps, Keeps-same, upgrade-Keeps}
use hypr_drive.Store.Commands.{Command, run, or_else, run_all, run-Good}

-- The deletions of locations, and the relocation, which deletes one and inserts another.
abbrev pub removes_location : Command → Bool
removes_location (Command.delete_by_fid _ _) = true
removes_location (Command.delete_by_path _ _) = true
removes_location (Command.relocate _ _ _ _ _ _ _) = true
removes_location _ = false

-- A statement that leaves all locations as they are, or is refused.
abbrev Same : Store → Option Store → Type 0
Same t none = Unit
Same t (some u) = u.locations ≡ t.locations

upsert_object-Same : (row : ObjectRow) (t : Store) → Same t (upsert_object row t)
unfolding upsert_object
upsert_object-Same row t = elim (Bool-cases (is_hash_state row.hash_state)) [
  | inr f ↦ rw f tt
  | inl s ↦ elim (Bool-cases (has_object t.objects row.id)) [
    | inl h ↦ rw (s, h) refl
    | inr h ↦ rw (s, h) refl
  ]
]

Same-bind :
    (t : Store) (m : Option Store) (f : Store → Option Store)
    → Same t m
    → ((u : Store) → Same u (f u))
    → Same t (m >>= f)
Same-bind t none f e g = tt
Same-bind t (some u) f e g = both (f u) (g u)
  where
    both : (m : Option Store) → Same u m → Same t m
    both none h = tt
    both (some v) h = h ∙ e

upsert_objects_batch-Same :
    (rows : List ObjectRow) (t : Store) → Same t (upsert_objects_batch rows t)
unfolding upsert_objects_batch
upsert_objects_batch-Same [] t = refl
upsert_objects_batch-Same (row ∷ rows) t =
    Same-bind t (upsert_object row t) (upsert_objects_batch rows) (upsert_object-Same row t)
      (upsert_objects_batch-Same rows)

save_cursor-Same : (now key json : String) (t : Store) → Same t (some (save_cursor now key json t))
unfolding save_cursor
save_cursor-Same now key json t =
    elim (Bool-cases (exists (λ c. same c.volume_key key) t.cursors)) [
      | inl h ↦ rw h refl
      | inr h ↦ rw h refl
    ]

add_tag-Same : (tag id : String) (t : Store) → Same t (store_of (add_tag tag id t))
unfolding add_tag
add_tag-Same tag id t = elim (Bool-cases (exists (is_junction tag id) t.tags_on_objects)) [
  | inl h ↦ rw h refl
  | inr h ↦ elim (Bool-cases (has_tag t.tags tag && has_object t.objects id)) [
    | inl k ↦ rw (h, k) refl
    | inr k ↦ rw (h, k) tt
  ]
]

add_tags_batch-Same :
    (tag : String) (ids : List String) (t : Store) → Same t (store_of (add_tags_batch tag ids t))
unfolding add_tags_batch
add_tags_batch-Same tag [] t = refl
add_tags_batch-Same tag (id ∷ ids) t =
    added (add_tag tag id t) (add_tag-Same tag id t) (add_tags_batch-Same tag ids)
  where
    then_more :
        (n : ℕ) (u : Store) (m : Option (ℕ × Store))
        → u.locations ≡ t.locations
        → Same u (store_of m)
        → Same t (store_of (more n m))
    then_more n u none e h = tt
    then_more n u (some (k, v)) e h = h ∙ e

    added :
        (m : Option (ℕ × Store))
        → Same t (store_of m)
        → ((u : Store) → Same u (store_of (add_tags_batch tag ids u)))
        → Same t (store_of (m >>= λ (n, u). more n (add_tags_batch tag ids u)))
    added none e f = tt
    added (some (n, u)) e f = then_more n u (add_tags_batch tag ids u) e (f u)

remove_tags_batch-Same :
    (tag : String) (ids : List String) (t : Store) → Same t (some (remove_tags_batch tag ids t).1)
unfolding remove_tags_batch
remove_tags_batch-Same tag [] t = refl
remove_tags_batch-Same tag (id ∷ ids) t = remove_tags_batch-Same tag ids _

module _ (id volume_id path : String) where
  Keeps-Same : (t : Store) (m : Option Store) → Same t m → Keeps id volume_id path t m
  Keeps-Same t none e = tt
  Keeps-Same t (some u) e = Keeps-same id volume_id path t u e

  or_left : (a b : Bool) → a ≡ true → (a || b) ≡ true
  or_left true b h = refl
  or_left false b h = cc

  upsert_location-Keeps :
      (row : LocationRow) (t : Store) → Keeps id volume_id path t (upsert_location row t)
  unfolding upsert_location insert_location
  upsert_location-Keeps row t = elim (Bool-cases (not (has_object t.objects row.object_id))) [
    | inl n ↦ rw n tt
    | inr n ↦ elim (Bool-cases (exists (at_path row.volume_id row.path) t.locations)) [
      | inl p ↦
          rw (n, p)
            (λ h.
              exists-update_where (is_at id volume_id path) (at_path row.volume_id row.path)
                (merge_location row) (λ _. refl) t.locations
              ∙ h)
      | inr p ↦ elim (Bool-cases (has_location t.locations row.id)) [
        | inl k ↦ rw (n, p, k) tt
        | inr k ↦ elim (Bool-cases (not (is_parent (row ∷ t.locations) row.parent_id))) [
          | inl r ↦ rw (n, p, k, r) tt
          | inr r ↦
              rw (n, p, k, r)
                (λ h.
                  exists-snoc (is_at id volume_id path) t.locations row
                  ∙ or_left (exists (is_at id volume_id path) t.locations) _ h)
        ]
      ]
    ]
  ]

  run-Keeps :
      (command : Command) (t : Store)
      → IsConsistent t
      → removes_location command ≡ false
      → Keeps id volume_id path t (run command t)
  unfolding run
  run-Keeps (Command.put_object row) t c n = Keeps-Same t _ (upsert_object-Same row t)
  run-Keeps (Command.put_objects rows) t c n = Keeps-Same t _ (upsert_objects_batch-Same rows t)
  run-Keeps (Command.put_location row) t c n = upsert_location-Keeps row t
  run-Keeps (Command.put_cursor now key json) t c n =
      Keeps-Same t (some (save_cursor now key json t)) (save_cursor-Same now key json t)
  run-Keeps (Command.delete_orphans ids) t c n =
      Keeps-same id volume_id path t (delete_orphan_objects ids t).1
        (In-delete_orphan_objects ids t).0
  run-Keeps (Command.upgrade now old_id new_id) t c n =
      upgrade-Keeps id volume_id path now old_id new_id t c
  run-Keeps (Command.add_tags tag ids) t c n = Keeps-Same t _ (add_tags_batch-Same tag ids t)
  run-Keeps (Command.remove_tags tag ids) t c n =
      Keeps-Same t (some (remove_tags_batch tag ids t).1) (remove_tags_batch-Same tag ids t)
  run-Keeps _ t c n = cc

-- From consistent tables, a sequence of the queries without deletions of locations and relocations,
-- with the refused ones rolled back, ends in consistent tables, and a location that was there is
-- still there, with its id, its volume and its path: neither the deletion of orphans nor the upgrade
-- of a deferred object takes a location with it by the cascade.
pub exists-run_all :
    (commands : List Command) (t : Store) (id volume_id path : String)
    → IsConsistent t
    → All (λ c. removes_location c ≡ false) commands
    → exists (is_at id volume_id path) t.locations ≡ true
    → IsConsistent (run_all commands t)
      × (exists (is_at id volume_id path) (run_all commands t).locations ≡ true)
unfolding run_all
exists-run_all [] t id volume_id path c a h = (c, h)
exists-run_all (command ∷ commands) t id volume_id path c a h =
    one (run command t) (run-Good command t c) (run-Keeps id volume_id path command t c a.0)
      (λ u d k. exists-run_all commands u id volume_id path d a.1 k)
  where
    Ends : Store → Type 0
    Ends u = IsConsistent u × (exists (is_at id volume_id path) u.locations ≡ true)

    one :
        (m : Option Store)
        → Good m
        → Keeps id volume_id path t m
        → ((u : Store)
            → IsConsistent u
            → exists (is_at id volume_id path) u.locations ≡ true
            → Ends (run_all commands u))
        → Ends (run_all commands (or_else m t))
    one none g k next = next t c h
    one (some u) g k next = next u g (k h)
