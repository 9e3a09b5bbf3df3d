-- ===== src/Hashing/Background/Files.antt =====
-- The paths of files in the tables under the upgrades of
-- crates/object-pipeline/src/background_hasher.rs.
use hypr_drive.Prelude.{
  ◌≡◌, sym, false, not, ◌&&◌, Option, some, none, String, List, [], ◌∷◌, Bool-cases, inl, inr,
}
use hypr_drive.Prelude.HashMap.{All}
use hypr_drive.Prelude.Members.{In, here, there}
use hypr_drive.Store.{LocationRow, Store, has_object, delete_objects, delete_locations}
use hypr_drive.Store.Rows.{exists, same}
use hypr_drive.Store.Rows.Existence.{All-keep, All-update_where}
use mathlib.Core.Option.{some-injective}
use hypr_drive.Store.Upgrade.{store_of}
use hypr_drive.Store.Deferred.{repoint, delete_old, upgrade_deferred_object}
use hypr_drive.Hashing.Background.{before, lesser, least_path}

-- Where files of locations can be read.
module _ (readable : String → Type 0) where
  abbrev IsFileAt : LocationRow → Type 0
  IsFileAt l = l.is_directory ≡ false → readable l.path

  -- Each location of a file has a readable path.
  abbrev pub Files : Store → Type 0
  Files t = All IsFileAt t.locations

  abbrev pub FilesAfter : Option Store → Type 0
  FilesAfter none = Unit
  FilesAfter (some t) = Files t

  repoint-Files :
      (new_id old_id : String) (t : Store) → Files t → FilesAfter (repoint new_id old_id t)
  repoint-Files new_id old_id t a =
      elim (Bool-cases
        (exists (λ l. same l.object_id old_id) t.locations && not (has_object t.objects new_id))) [
          | inl e ↦ rw e tt
          | inr f ↦ rw f (
              All-update_where (λ l. same l.object_id old_id) (λ l. record l { object_id = new_id })
                (λ _ _ k. k) (λ _ _ k. k) t.locations a)
        ]

  delete_old-Files :
      (old_id : String) (m : Option Store)
      → FilesAfter m
      → FilesAfter (store_of (delete_old old_id m))
  unfolding delete_old delete_objects delete_locations
  delete_old-Files old_id none a = tt
  delete_old-Files old_id (some t) a =
      All-update_where _ (λ l. record l { parent_id = none }) (λ _ _ k. k) (λ _ _ k. k) _
        (All-keep _ (λ _ _ k. k) t.locations a)

  pub upgrade-Files :
      (now old_id new_id : String) (t : Store)
      → Files t
      → FilesAfter (store_of (upgrade_deferred_object now old_id new_id t))
  unfolding upgrade_deferred_object
  upgrade-Files now old_id new_id t a = elim (Bool-cases (same old_id new_id)) [
    | inl e ↦ rw e a
    | inr f ↦ rw f (delete_old-Files old_id _ (repoint-Files new_id old_id _ a))
  ]

pub least_path-In :
    (l : LocationRow) (rows : List LocationRow) → least_path rows ≡ some l → In l rows
unfolding least_path
least_path-In l [] e = cc
least_path-In l (r ∷ rows) e = later (least_path rows) e (least_path-In l rows)
  where
    later :
        (m : Option LocationRow)
        → some (lesser r m) ≡ some l
        → (m ≡ some l → In l rows)
        → In l (r ∷ rows)
    later none e f = here r rows (sym (some-injective r l e))
    later (some k) e f = elim (Bool-cases (before r.path k.path)) [
      | inl t ↦ here r rows (sym (some-injective r l (rw t at e)))
      | inr n ↦ there r rows (f (rw n at e))
    ]
