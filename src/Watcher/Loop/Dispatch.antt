-- ===== src/Watcher/Loop/Dispatch.antt =====
-- What each volume's processor is given by the loop of apps/daemon/src/watcher.rs.
use mathlib.Core.List.{append-nil, append_assoc}
use hypr_drive.Prelude.{
  ℕ, ◌≡◌, ap, sym, ◌∙◌, List, [], ◌∷◌, ◌++◌, arith, Bool, true, false, none, some, Option, String,
}
use hypr_drive.Prelude.Text.{String_discrete}
use hypr_drive.Prelude.HashMap
use mathlib.Core.List.Permᴰ
use hypr_drive.Prelude.HashMap.{Visit, IsMap, Permᴰ-short, at_key, option_list}
use hypr_drive.Changes.{FsChange, VolumedChange}
use hypr_drive.Watcher.{CoalescedState, emit_all, coalesce_changes}
use hypr_drive.Watcher.Loop.{
  push_change, partition, Processors, Daemon, dispatch, dispatch_all, process_batch,
}
use mathlib.Core.Logic.{ite}

-- The changes of one volume, in order.
pub changes_in : String → List VolumedChange → List FsChange
changes_in vol [] = []
changes_in vol (vc ∷ batch) =
    let rest = changes_in vol batch in
    ite (String_discrete vc.volume_id vol) (vc.change ∷ rest) rest

abbrev or_nil : Option (List FsChange) → List FsChange
or_nil none = []
or_nil (some cs) = cs

abbrev group : String → List (String × List FsChange) → List FsChange
group vol m = or_nil (HashMap.get String_discrete vol m)

group-push :
    (vol : String) (vc : VolumedChange) (m : List (String × List FsChange))
    → group vol (HashMap.update String_discrete vc.volume_id (push_change vc.change) m)
      ≡ ite (String_discrete vc.volume_id vol) (group vol m ++ vc.change ∷ []) (group vol m)
group-push vol vc m = rw HashMap.get-update (ground (arith))

group-partition :
    (vol : String) (m : List (String × List FsChange)) (batch : List VolumedChange)
    → group vol (partition m batch) ≡ group vol m ++ changes_in vol batch
unfolding partition changes_in
group-partition vol m [] = rw append-nil
group-partition vol m (vc ∷ batch) =
    group-partition vol (HashMap.update String_discrete vc.volume_id (push_change vc.change) m)
      batch
    ∙ ground (
      arith,
      group-push vol vc m,
      append_assoc (group vol m) (vc.change ∷ []) (changes_in vol batch),
    )

partition-IsMap :
    (m : List (String × List FsChange)) (batch : List VolumedChange)
    → IsMap String_discrete m
    → IsMap String_discrete (partition m batch)
unfolding partition
partition-IsMap m [] u = u
partition-IsMap m (vc ∷ batch) u =
    partition-IsMap (HashMap.update String_discrete vc.volume_id (push_change vc.change) m) batch
      (HashMap.update-IsMap String_discrete vc.volume_id (push_change vc.change) m u)

module _ {W : Type 0} (procs : Processors W) (vis : Visit (ℕ × CoalescedState)) where
  -- The one call that a volume's changes lead to, if it has a processor and anything is left.
  abbrev pub calls : Bool → List FsChange → List (List FsChange)
  calls known [] = []
  calls false (c ∷ cs) = []
  calls true (c ∷ cs) = (c ∷ cs) ∷ []

  calls_all : String → List (List FsChange) → List (List FsChange)
  calls_all vol [] = []
  calls_all vol (cs ∷ rest) =
      calls (procs.known vol) (coalesce_changes vis cs) ++ calls_all vol rest

  at_key-dispatch :
      (v vol : String) (known : Bool) (cs : List FsChange) (d : Daemon W)
      → at_key String_discrete v (dispatch procs vis known vol cs d).sent
        ≡ at_key String_discrete v d.sent ++ ite (String_discrete vol v) (calls known cs) []
  unfolding dispatch
  at_key-dispatch v vol known [] d = ground (arith, append-nil (at_key String_discrete v d.sent))
  at_key-dispatch v vol false (c ∷ cs) d =
      ground (arith, append-nil (at_key String_discrete v d.sent))
  at_key-dispatch v vol true (c ∷ cs) d =
      HashMap.at_key-append String_discrete v d.sent ((vol, c ∷ cs) ∷ []) ∙ ground arith

  at_key-dispatch_all :
      (v : String) (m : List (String × List FsChange)) (d : Daemon W)
      → at_key String_discrete v (dispatch_all procs vis m d).sent
        ≡ at_key String_discrete v d.sent ++ calls_all v (at_key String_discrete v m)
  unfolding dispatch_all calls_all
  at_key-dispatch_all v [] d = rw append-nil
  at_key-dispatch_all v ((vol, cs) ∷ m) d =
      at_key-dispatch_all v m (dispatch procs vis (procs.known vol) vol (coalesce_changes vis cs) d)
      ∙ elim (String_discrete vol v) [
        | yes p ↦ ground (
          arith,
          at_key-dispatch v vol (procs.known vol) (coalesce_changes vis cs) d,
          append_assoc (at_key String_discrete v d.sent)
              (calls (procs.known vol) (coalesce_changes vis cs))
              (calls_all v (at_key String_discrete v m)),
        )
        | no p ↦ ground (
          arith,
          at_key-dispatch v vol (procs.known vol) (coalesce_changes vis cs) d,
          append-nil (at_key String_discrete v d.sent),
        )
      ]

  coalesce_changes-nil : coalesce_changes vis [] ≡ []
  unfolding coalesce_changes
  coalesce_changes-nil = ap emit_all (sym (Permᴰ-short (Permᴰ.symm (vis.once [])) (omega arith)))

  calls_all-group :
      (vol : String) (o : Option (List FsChange))
      → calls_all vol (option_list o) ≡ calls (procs.known vol) (coalesce_changes vis (or_nil o))
  unfolding calls_all
  calls_all-group vol none = rw coalesce_changes-nil
  calls_all-group vol (some cs) = append-nil _

  -- One batch gives each volume that has a processor one call, with the coalesced changes of that
  -- volume alone, in their order of arrival; a volume with no processor, and one whose changes
  -- cancel out, gets none.
  pub sent-process_batch :
      (volumes : Visit (String × List FsChange)) (batch : List VolumedChange) (d : Daemon W)
      (vol : String)
      → at_key String_discrete vol (process_batch procs vis volumes batch d).sent
        ≡ at_key String_discrete vol d.sent
          ++ calls (procs.known vol) (coalesce_changes vis (changes_in vol batch))
  unfolding process_batch HashMap.get
  sent-process_batch volumes batch d vol =
      at_key-dispatch_all vol (volumes.order (partition [] batch)) d
      ∙ rw (
        HashMap.at_key-visit String_discrete volumes vol (partition [] batch)
            (partition-IsMap [] batch tt),
        calls_all-group,
        group-partition vol [] batch,
      )
