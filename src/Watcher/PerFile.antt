-- ===== src/Watcher/PerFile.antt =====
-- What `coalesce_changes` of apps/daemon/src/watcher.rs returns, file by file.
use mathlib.Core.List.{append-nil, append_assoc}
use hypr_drive.Prelude.{
  ℕ, ◌≡◌, refl, ap, ◌∙◌, Option, some, none, List, [], ◌∷◌, ◌++◌, arith, ℕ_discrete, ◌==◌,
  if◌then◌else◌,
}
use mathlib.Core.List.Permᴰ
use hypr_drive.Prelude.HashMap
use hypr_drive.Prelude.HashMap.{Visit, All, All-Permᴰ, IsMap, at_key, option_list}
use hypr_drive.Watcher.Views.{
  is_fid, is_none, changes_of, rescans, fold_all, changes_of-append, rescans-append,
  changes_of-rescans, rescans-rescans,
}
use hypr_drive.Changes.{FsChange}
use hypr_drive.Watcher.{
  change_fid, CoalescedState, empty, cancelled, single, moved_then_modified, fold, fold_entry,
  Progress, take_change, fold_changes, emit, emit_all, coalesce_changes,
}

-- All that is kept for a file are changes of that file.
abbrev Keeps : ℕ × CoalescedState → Type 0
Keeps (f, empty) = Unit
Keeps (f, cancelled) = Unit
Keeps (f, single e) = change_fid e ≡ some f
Keeps (f, moved_then_modified m n) = (change_fid m ≡ some f) × (change_fid n ≡ some f)

fold-Keeps :
    (f : ℕ) (s : CoalescedState) (c : FsChange)
    → Keeps (f, s)
    → change_fid c ≡ some f
    → Keeps (f, fold s c)
unfolding fold change_fid
fold-Keeps f empty c k e = e
fold-Keeps f cancelled c k e = e
fold-Keeps f (single s) c k e = ground arith
fold-Keeps f (moved_then_modified m n) c k e = ground arith

abbrev or_empty : Option CoalescedState → CoalescedState
or_empty none = empty
or_empty (some s) = s

fold_entry-fold : (c : FsChange) (o : Option CoalescedState) → fold_entry c o ≡ fold (or_empty o) c
unfolding fold_entry
fold_entry-fold c none = refl
fold_entry-fold c (some s) = refl

fold_entry-Keeps :
    (f : ℕ) (c : FsChange) (o : Option CoalescedState)
    → Keeps (f, or_empty o)
    → change_fid c ≡ some f
    → Keeps (f, fold_entry c o)
unfolding fold_entry
fold_entry-Keeps f c none k e = fold-Keeps f empty c k e
fold_entry-Keeps f c (some s) k e = fold-Keeps f s c k e

-- What holds of the two collections after any changes.
record IsSound (p : Progress) : Type 0 where
  distinct : IsMap ℕ_discrete p.fid_state
  own : All Keeps p.fid_state

take_change-IsSound :
    (c : FsChange) (p : Progress) → IsSound p → IsSound (take_change (change_fid c) c p)
unfolding take_change
take_change-IsSound c p s = by_fid (change_fid c) refl
  where
    by_fid : (o : Option ℕ) → change_fid c ≡ o → IsSound (take_change o c p)
    by_fid none e = record { distinct = s.distinct; own = s.own }
    by_fid (some f) e = record {
      distinct = HashMap.update-IsMap ℕ_discrete f (fold_entry c) p.fid_state s.distinct;
      own =
          HashMap.All-update ℕ_discrete Keeps f (fold_entry c) p.fid_state
            (fold_entry-Keeps f c none tt e) (λ v k. fold_entry-Keeps f c (some v) k e) s.own;
    }

fold_changes-IsSound : (cs : List FsChange) (p : Progress) → IsSound p → IsSound (fold_changes cs p)
unfolding fold_changes
fold_changes-IsSound [] p s = s
fold_changes-IsSound (c ∷ cs) p s =
    fold_changes-IsSound cs (take_change (change_fid c) c p) (take_change-IsSound c p s)

state_of : ℕ → Progress → CoalescedState
state_of f p = or_empty (HashMap.get ℕ_discrete f p.fid_state)

state_of-take_change :
    (f : ℕ) (c : FsChange) (p : Progress)
    → state_of f (take_change (change_fid c) c p)
      ≡ (if is_fid f (change_fid c) then fold (state_of f p) c else state_of f p)
unfolding state_of take_change
state_of-take_change f c p = by_fid (change_fid c)
  where
    by_fid :
        (o : Option ℕ)
        → state_of f (take_change o c p)
          ≡ (if is_fid f o then fold (state_of f p) c else state_of f p)
    by_fid none = refl
    by_fid (some g) = ground (
      arith,
      HashMap.get-update ℕ_discrete g f (fold_entry c) p.fid_state,
      fold_entry-fold c (HashMap.get ℕ_discrete g p.fid_state),
    )

state_of-fold_changes :
    (f : ℕ) (cs : List FsChange) (p : Progress)
    → state_of f (fold_changes cs p) ≡ fold_all (state_of f p) (changes_of f cs)
unfolding fold_changes fold_all changes_of
state_of-fold_changes f [] p = refl
state_of-fold_changes f (c ∷ cs) p =
    ground (
      arith,
      state_of-fold_changes f cs (take_change (change_fid c) c p),
      state_of-take_change f c p,
    )

result-take_change :
    (c : FsChange) (p : Progress)
    → (take_change (change_fid c) c p).result
      ≡ (if is_none (change_fid c) then p.result ++ c ∷ [] else p.result)
unfolding take_change change_fid
result-take_change c p = ground arith

result-fold_changes :
    (cs : List FsChange) (p : Progress) → (fold_changes cs p).result ≡ p.result ++ rescans cs
unfolding fold_changes rescans
result-fold_changes [] p = rw append-nil
result-fold_changes (c ∷ cs) p = ground (
  arith,
  result-fold_changes cs (take_change (change_fid c) c p),
  result-take_change c p,
  append_assoc p.result (c ∷ []) (rescans cs),
)

changes_of-emit :
    (f g : ℕ) (s : CoalescedState)
    → Keeps (g, s)
    → changes_of f (emit s) ≡ (if g == f then emit s else [])
unfolding changes_of emit
changes_of-emit f g s k = ground arith

rescans-emit : (g : ℕ) (s : CoalescedState) → Keeps (g, s) → rescans (emit s) ≡ []
unfolding rescans emit
rescans-emit g s k = ground arith

emit_states : List CoalescedState → List FsChange
emit_states [] = []
emit_states (s ∷ ss) = emit s ++ emit_states ss

changes_of-emit_all :
    (f : ℕ) (m : List (ℕ × CoalescedState))
    → All Keeps m
    → changes_of f (emit_all m) ≡ emit_states (at_key ℕ_discrete f m)
unfolding changes_of emit_all emit_states
changes_of-emit_all f [] a = refl
changes_of-emit_all f ((g, s) ∷ m) a =
    changes_of-append f (emit s) (emit_all m)
    ∙ ground (arith, changes_of-emit_all f m a.1, changes_of-emit f g s a.0)

rescans-emit_all : (m : List (ℕ × CoalescedState)) → All Keeps m → rescans (emit_all m) ≡ []
unfolding rescans emit_all
rescans-emit_all [] a = refl
rescans-emit_all ((g, s) ∷ m) a = rw (rescans-append, rescans-emit g s a.0, rescans-emit_all m a.1)

emit_states-option_list :
    (o : Option CoalescedState) → emit_states (option_list o) ≡ emit (or_empty o)
unfolding emit_states emit
emit_states-option_list none = refl
emit_states-option_list (some s) = append-nil (emit s)

module _ (vis : Visit (ℕ × CoalescedState)) (cs : List FsChange) where
  abbrev done : Progress
  done = fold_changes cs (record { fid_state = []; result = [] })

  done-IsSound : IsSound done
  done-IsSound =
      fold_changes-IsSound cs (record { fid_state = []; result = [] })
        (record { distinct = tt; own = tt })

  visited-Keeps : All Keeps (vis.order done.fid_state)
  visited-Keeps = All-Permᴰ Keeps (Permᴰ.symm (vis.once done.fid_state)) done-IsSound.own

  -- Whatever the iteration order of the hash map, the coalesced changes of a file are what the
  -- fold of that file's own changes, in their order, leaves to emit: files do not disturb one
  -- another.
  pub coalesce_changes-per_file :
      (f : ℕ) → changes_of f (coalesce_changes vis cs) ≡ emit (fold_all empty (changes_of f cs))
  unfolding coalesce_changes state_of HashMap.get
  coalesce_changes-per_file f =
      changes_of-append f done.result (emit_all (vis.order done.fid_state))
      ∙ rw
          (
            result-fold_changes,
            changes_of-rescans,
            changes_of-emit_all f (vis.order done.fid_state) visited-Keeps,
            HashMap.at_key-visit ℕ_discrete vis f done.fid_state done-IsSound.distinct,
            emit_states-option_list,
          )
          (ap emit (state_of-fold_changes f cs (record { fid_state = []; result = [] })))

  -- The requests for a full rescan pass through, all of them and in their order.
  pub rescans-coalesce_changes : rescans (coalesce_changes vis cs) ≡ rescans cs
  unfolding coalesce_changes
  rescans-coalesce_changes =
      rescans-append done.result (emit_all (vis.order done.fid_state))
      ∙ rw (
        result-fold_changes,
        rescans-rescans,
        rescans-emit_all (vis.order done.fid_state) visited-Keeps,
        append-nil,
      )
