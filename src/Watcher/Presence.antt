-- ===== src/Watcher/Presence.antt =====
-- What coalescing (apps/daemon/src/watcher.rs) does to the existence of a file: the changes that it
-- leaves, replayed, against all the changes, replayed.
use hypr_drive.Prelude.{
  String, Option, ap, ℕ, ◌≡◌, refl, Bool, true, false, List, [], ◌∷◌, ◌++◌, arith,
}
use hypr_drive.Prelude.HashMap.{Visit}
use hypr_drive.Changes.{FsChange, created, deleted, moved, modified, full_rescan_needed}
use hypr_drive.Watcher.{
  CoalescedState, empty, cancelled, single, moved_then_modified, fold, emit, coalesce_changes,
}
use hypr_drive.Watcher.Views.{changes_of, fold_all}
use hypr_drive.Watcher.PerFile.{coalesce_changes-per_file}

-- Whether a file exists after a change.
abbrev exists_after : Bool → FsChange → Bool
exists_after p (created _) = true
exists_after p (deleted _ _) = false
exists_after p _ = p

unfoldable pub replay : Bool → List FsChange → Bool
replay p [] = p
replay p (c ∷ cs) = replay (exists_after p c) cs

-- A possible history of one file that is never moved: it is created only when it does not exist,
-- and deleted or modified only when it does.
abbrev pub IsHistory : Bool → List FsChange → Type 0
IsHistory p [] = Unit
IsHistory p (created _ ∷ cs) = (p ≡ false) × IsHistory true cs
IsHistory p (deleted _ _ ∷ cs) = (p ≡ true) × IsHistory false cs
IsHistory p (modified _ _ ∷ cs) = (p ≡ true) × IsHistory true cs
IsHistory p (moved _ _ _ ∷ cs) = ⊥
IsHistory p (full_rescan_needed _ _ ∷ cs) = ⊥

-- What a state says of the existence of the file before and after the changes that it stands for.
abbrev Says : CoalescedState → Bool → Bool → Type 0
Says empty p q = q ≡ p
Says cancelled p q = (p ≡ false) × (q ≡ false)
Says (single (created _)) p q = (p ≡ false) × (q ≡ true)
Says (single (deleted _ _)) p q = (p ≡ true) × (q ≡ false)
Says (single (modified _ _)) p q = (p ≡ true) × (q ≡ true)
Says _ p q = ⊥

replay-emit : (s : CoalescedState) (p q : Bool) → Says s p q → replay p (emit s) ≡ q
unfolding replay emit
replay-emit empty p q h = ground arith
replay-emit cancelled p q h = ground arith
replay-emit (single e) p q h = ground arith
replay-emit (moved_then_modified m n) p q h = elim h [ ]

fold-Says :
    (s : CoalescedState) (c : FsChange) (p q : Bool) (cs : List FsChange)
    → Says s p q
    → IsHistory q (c ∷ cs)
    → Says (fold s c) p (exists_after q c) × IsHistory (exists_after q c) cs
unfolding fold
fold-Says empty c p q cs h w = ground arith
fold-Says cancelled c p q cs h w = ground arith
fold-Says (single e) c p q cs h w = ground arith
fold-Says (moved_then_modified m n) c p q cs h w = elim h [ ]

fold_all-Says :
    (s : CoalescedState) (p q : Bool) (cs : List FsChange)
    → Says s p q
    → IsHistory q cs
    → Says (fold_all s cs) p (replay q cs)
unfolding fold_all replay
fold_all-Says s p q [] h w = h
fold_all-Says s p q (c ∷ cs) h w =
    let (h', w') = fold-Says s c p q cs h w in
    fold_all-Says (fold s c) p (exists_after q c) cs h' w'

module _ (vis : Visit (ℕ × CoalescedState)) (cs : List FsChange) (f : ℕ) where
  -- For a file that is not moved, the coalesced changes leave it existing or not exactly as all
  -- its changes do.
  pub replay-coalesce_changes :
      (p : Bool)
      → IsHistory p (changes_of f cs)
      → replay p (changes_of f (coalesce_changes vis cs)) ≡ replay p (changes_of f cs)
  replay-coalesce_changes p w = rw (coalesce_changes-per_file vis cs f) (
      replay-emit (fold_all empty (changes_of f cs)) p (replay p (changes_of f cs))
        (fold_all-Says empty p p (changes_of f cs) refl w))

abbrev pub AllModified : List FsChange → Type 0
AllModified [] = Unit
AllModified (modified _ _ ∷ cs) = AllModified cs
AllModified (_ ∷ cs) = ⊥

fold_all-modified :
    (m n : FsChange) (f : ℕ) (path : Option String) (cs : List FsChange)
    → AllModified cs
    → fold_all (moved_then_modified m n) (cs ++ deleted f path ∷ []) ≡ cancelled
unfolding fold_all fold
fold_all-modified m n f path [] a = refl
fold_all-modified m n f path (modified g s ∷ cs) a = fold_all-modified m (modified g s) f path cs a
fold_all-modified m n f path (_ ∷ cs) a = elim a [ ]

replay-modified :
    (p : Bool) (f : ℕ) (path : Option String) (cs : List FsChange)
    → replay p (cs ++ deleted f path ∷ []) ≡ false
unfolding replay
replay-modified p f path [] = refl
replay-modified p f path (c ∷ cs) = replay-modified (exists_after p c) f path cs

-- A file that is moved, then modified at least once, then deleted within one batch is gone after
-- its changes, and no change of it is left by the coalescing: the deletion is lost.
pub moved_modified_deleted-lost :
    (vis : Visit (ℕ × CoalescedState)) (cs : List FsChange) (f parent size : ℕ) (name : String)
    (path : Option String) (ms : List FsChange)
    → AllModified ms
    → changes_of f cs ≡ moved f parent name ∷ modified f size ∷ (ms ++ deleted f path ∷ [])
    → (replay true (changes_of f cs) ≡ false) × (changes_of f (coalesce_changes vis cs) ≡ [])
unfolding replay fold_all fold emit
moved_modified_deleted-lost vis cs f parent size name path ms a e = (
  rw e (replay-modified true f path ms),
  rw (coalesce_changes-per_file vis cs f, e)
      (ap emit (fold_all-modified (moved f parent name) (modified f size) f path ms a)),
)
