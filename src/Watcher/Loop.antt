-- ===== src/Watcher/Loop.antt =====
-- `WatcherLoop::run` of apps/daemon/src/watcher.rs. What the channel and the timer do is a list of
-- polls; its end is the closing of the channel.
pub mod Batches
pub mod Dispatch
use hypr_drive.Prelude.{
  ℕ, ◌+◌, Option, some, none, Bool, true, false, List, [], ◌∷◌, ◌++◌, String, length, leb,
  if◌then◌else◌,
}
use hypr_drive.Prelude.Text.{String_discrete}
use hypr_drive.Prelude.HashMap
use hypr_drive.Prelude.HashMap.{Visit}
use hypr_drive.Changes.{FsChange, VolumedChange}
use hypr_drive.Watcher.{CoalescedState, coalesce_changes}

-- An event is received, or the debounce window of the batch expires.
pub data Poll : Type 0 where
  arrives : VolumedChange → Poll
  expires : Poll

-- The batches that reach the partition by volume, and what is in `batch` when the loop ends.
pub record Run : Type 0 where
  pub dispatched : List (List VolumedChange)
  pub dropped : List VolumedChange

abbrev pub add_batch : List VolumedChange → Run → Run
add_batch batch r = record r { dispatched = batch ∷ r.dispatched }

-- No window is open while the batch is empty.
pub on_expiry : List VolumedChange → Run → Run
on_expiry [] r = r
on_expiry (v ∷ batch) r = add_batch (v ∷ batch) r

-- `batch.len() >= self.max_batch`
pub is_full : ℕ → List VolumedChange → Bool
is_full max_batch batch = leb max_batch (length batch)

-- The two loops that collect batches. A batch is dispatched as soon as it has `max_batch` events;
-- the inner loop returns when the channel closes.
unfoldable pub collect : ℕ → List VolumedChange → List Poll → Run
unfolding on_expiry is_full
collect max_batch batch [] = record { dispatched = []; dropped = batch }
collect max_batch batch (expires ∷ polls) = on_expiry batch (collect max_batch [] polls)
collect max_batch batch (arrives v ∷ polls) =
    let dispatched = add_batch (batch ++ v ∷ []) (collect max_batch [] polls) in
    let extended = collect max_batch (batch ++ v ∷ []) polls in
    if is_full max_batch (batch ++ v ∷ []) then dispatched else extended

abbrev push_change : FsChange → Option (List FsChange) → List FsChange
push_change c none = c ∷ []
push_change c (some cs) = cs ++ c ∷ []

-- `by_volume.entry(vc.volume_id).or_default().push(vc.change)`
pub partition : List (String × List FsChange) → List VolumedChange → List (String × List FsChange)
partition by_volume [] = by_volume
partition by_volume (vc ∷ batch) =
    partition (HashMap.update String_discrete vc.volume_id (push_change vc.change) by_volume) batch

-- The processors: which volumes have one, and what a call does to the world and returns, `none`
-- for an error and otherwise whether a rescan is needed.
pub record Processors (W : Type 0) : Type 0 where
  pub known : String → Bool
  pub process : String → List FsChange → W → Option Bool × W

pub record Daemon (W : Type 0) : Type 0 where
  pub world : W
  pub sent : List (String × List FsChange)
  pub rescan_signals : ℕ

module _ {W : Type 0} (procs : Processors W) (vis : Visit (ℕ × CoalescedState)) where
  abbrev signals : Option Bool → ℕ
  signals (some true) = 1
  signals _ = 0

  pub dispatch : Bool → String → List FsChange → Daemon W → Daemon W
  dispatch known vol [] d = d
  dispatch false vol (c ∷ cs) d = d
  dispatch true vol (c ∷ cs) d =
      let (answer, w) = procs.process vol (c ∷ cs) d.world in
      record {
        world = w;
        sent = d.sent ++ (vol, c ∷ cs) ∷ [];
        rescan_signals = d.rescan_signals + signals answer;
      }

  pub dispatch_all : List (String × List FsChange) → Daemon W → Daemon W
  unfolding dispatch
  dispatch_all [] d = d
  dispatch_all ((vol, changes) ∷ rest) d =
      dispatch_all rest (dispatch (procs.known vol) vol (coalesce_changes vis changes) d)

  -- What follows the inner loop, for one batch.
  pub process_batch : Visit (String × List FsChange) → List VolumedChange → Daemon W → Daemon W
  unfolding partition dispatch_all
  process_batch volumes batch d = dispatch_all (volumes.order (partition [] batch)) d
