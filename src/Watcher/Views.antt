-- ===== src/Watcher/Views.antt =====
-- Views of a batch of changes (apps/daemon/src/watcher.rs): those of one file, and the requests
-- for a rescan.
use hypr_drive.Prelude.{
  ℕ, ◌≡◌, refl, Option, some, none, List, [], ◌∷◌, ◌++◌, arith, Bool, true, false, ◌==◌,
  if◌then◌else◌,
}
use hypr_drive.Changes.{FsChange}
use hypr_drive.Watcher.{change_fid, CoalescedState, fold}

abbrev pub is_fid : ℕ → Option ℕ → Bool
is_fid f none = false
is_fid f (some g) = g == f

-- The changes of one file, in order.
unfoldable pub changes_of : ℕ → List FsChange → List FsChange
changes_of f [] = []
changes_of f (c ∷ cs) =
    let rest = changes_of f cs in if is_fid f (change_fid c) then c ∷ rest else rest

abbrev pub is_none : Option ℕ → Bool
is_none none = true
is_none (some _) = false

-- The requests for a rescan, in order.
unfoldable pub rescans : List FsChange → List FsChange
rescans [] = []
rescans (c ∷ cs) = let rest = rescans cs in if is_none (change_fid c) then c ∷ rest else rest

pub changes_of-append :
    (f : ℕ) (xs ys : List FsChange) → changes_of f (xs ++ ys) ≡ changes_of f xs ++ changes_of f ys
unfolding changes_of
changes_of-append f [] ys = refl
changes_of-append f (x ∷ xs) ys = ground (arith, changes_of-append f xs ys)

pub rescans-append : (xs ys : List FsChange) → rescans (xs ++ ys) ≡ rescans xs ++ rescans ys
unfolding rescans
rescans-append [] ys = refl
rescans-append (x ∷ xs) ys = ground (arith, rescans-append xs ys)

-- The fold of all the changes of a file.
unfoldable pub fold_all : CoalescedState → List FsChange → CoalescedState
fold_all s [] = s
fold_all s (c ∷ cs) = fold_all (fold s c) cs

pub changes_of-rescans : (f : ℕ) (cs : List FsChange) → changes_of f (rescans cs) ≡ []
unfolding changes_of rescans change_fid
changes_of-rescans f [] = refl
changes_of-rescans f (c ∷ cs) = ground (arith, changes_of-rescans f cs)

pub rescans-rescans : (cs : List FsChange) → rescans (rescans cs) ≡ rescans cs
unfolding rescans
rescans-rescans [] = refl
rescans-rescans (c ∷ cs) = ground (arith, rescans-rescans cs)
