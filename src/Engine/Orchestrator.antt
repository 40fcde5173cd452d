-- ===== src/Engine/Orchestrator.antt =====
-- `SyncOrchestrator::sync_bidirectional` of crates/cloud_sync_daemon/src/engine/orchestrator.rs.
-- Its events to listeners have no counterpart.
pub mod Lost
pub mod Missing
pub mod Examples
use cloud_sync_lib.Base.{ℕ, Bool, true, false, Option, none, some, List, [], ◌∷◌, if◌then◌else◌}
use cloud_sync_lib.Base.Text.{Text, replace, strip_prefix}
use cloud_sync_lib.Base.Dict.{Dict, insert, remove}
use cloud_sync_lib.Storage.Errors.{Foreign, StorageError, Result, ok, err}
use cloud_sync_lib.Storage.Policy.{SyncPolicy, ConflictPolicy}
use cloud_sync_lib.Storage.State.{FileState, SyncState}
use cloud_sync_lib.Engine.Conflict.{ConflictResolver}
use cloud_sync_lib.Engine.Plan
use cloud_sync_lib.Engine.Plan.{SyncAction, SyncPlan}
use cloud_sync_lib.Engine.Scanner.{ScannedItem}
use cloud_sync_lib.Engine.Host.{Host}
use cloud_sync_lib.Engine.Planner.{PlanInput, plan}
use cloud_sync_lib.Engine.Executor.{Progress, execute}

-- The other collaborators, over the world of a host: the state repository (a failed load gives the
-- default catalog, a failed save is dropped), the two scans, the modification time of a local
-- path, the order in which the planner meets the paths, and the clock.
pub record Site {F : Foreign} (h : Host F) : Type 0 where
  pub load : h.World → SyncState
  pub save : SyncState → h.World → h.World
  pub scan_remote : h.World → Result (StorageError F) (Dict ScannedItem)
  pub scan_local : h.World → Result (StorageError F) (Dict ScannedItem)
  pub modified : Text → h.World → ℕ
  pub order : PlanInput → List Text
  pub now : h.World → ℕ

pub record SyncConfig : Type 0 where
  pub backend_name : Text
  pub watch_dir : Text
  pub policy : SyncPolicy
  pub conflict_policy : ConflictPolicy
  pub registry : Dict ConflictResolver
  pub dry_run : Bool

abbrev pub recorded : ℕ → ℕ → Option Text → Option ℕ → FileState
recorded size mtime checksum permissions = record {
  size = size;
  local_modified = mtime;
  remote_modified = mtime;
  is_dir = some false;
  checksum = checksum;
  permissions = permissions;
}

abbrev pub forget : Option Text → SyncState → SyncState
forget none state = state
forget (some rel) state = record { files = remove (replace 92 b'/' rel) state.files }

-- The body of the loop that brings the catalog up to date; 92 is the backslash.
unfoldable pub record_action : Text → (Text → ℕ) → SyncAction → SyncState → SyncState
unfolding insert remove strip_prefix replace
record_action watch_dir modified (Plan.converge_state rel_path s) state = record {
  files = insert rel_path s state.files;
}
record_action watch_dir modified (Plan.delete_local local_path) state =
    forget (strip_prefix local_path watch_dir) state
record_action watch_dir modified (Plan.delete_remote remote_path) state = record {
  files = remove remote_path state.files;
}
record_action watch_dir modified (Plan.upload local_path remote_path size) state = record {
  files = insert remote_path (recorded size (modified local_path) none none) state.files;
}
record_action watch_dir modified (Plan.download remote_path local_path size sum mode) state =
    record { files = insert remote_path (recorded size (modified local_path) sum mode) state.files }
record_action watch_dir modified _ state = state

unfoldable pub record_actions : Text → (Text → ℕ) → List SyncAction → SyncState → SyncState
unfolding record_action
record_actions watch_dir modified [] state = state
record_actions watch_dir modified (a ∷ rest) state =
    record_actions watch_dir modified rest (record_action watch_dir modified a state)

module _ {F : Foreign} (h : Host F) (site : Site h) where
  unfoldable pub plan_input :
      SyncConfig → Dict ScannedItem → Dict ScannedItem → SyncState → h.World → PlanInput
  plan_input c local remote base w = record {
    backend_name = c.backend_name;
    capabilities = h.capabilities;
    watch_dir = c.watch_dir;
    local_tree = local;
    remote_tree = remote;
    base_state = base;
    policy = c.policy;
    conflict_policy = c.conflict_policy;
    registry = c.registry;
    now = site.now w;
  }

  abbrev pub Planned : Type 0
  Planned = Result (StorageError F) (Option SyncPlan)

  abbrev plan_trees :
      SyncConfig
      → h.World
      → Result (StorageError F) (Dict ScannedItem)
      → Result (StorageError F) (Dict ScannedItem)
      → Planned
  plan_trees c w (err e) local = err e
  plan_trees c w (ok remote) (err e) = err e
  plan_trees c w (ok remote) (ok local) =
      let i = plan_input c local remote (site.load w) w in ok (plan i (site.order i))

  -- Load, scan the remote side, scan the local side, plan.
  unfoldable pub plan_sync : SyncConfig → h.World → Planned
  unfolding plan_input
  plan_sync c w = plan_trees c w (site.scan_remote w) (site.scan_local w)

  -- What follows the execution: the catalog is loaded again and every action of the plan is
  -- recorded in it. The counters of the execution are not read.
  unfoldable pub record_plan : SyncConfig → SyncPlan → h.World → h.World
  unfolding record_actions
  record_plan c plan w =
      if c.dry_run
      then w
      else site.save
          (record_actions c.watch_dir (λ p. site.modified p w) plan.actions (site.load w)) w

  abbrev pub Synced : Type 0
  Synced = Result (StorageError F) (Unit {0}) × h.World

  abbrev pub finish_sync : SyncConfig → SyncPlan → Option (Progress h) → Option Synced
  finish_sync c plan none = none
  finish_sync c plan (some g) = some (ok tt, record_plan c plan g.world)

  abbrev pub run_plan : ℕ → SyncConfig → Planned → h.World → Option Synced
  run_plan fuel c (err e) w = some (err e, w)
  run_plan fuel c (ok none) w = none
  run_plan fuel c (ok (some p)) w = finish_sync c p (execute h fuel p none c.dry_run w)

  -- `none`: the fuel of an upload session ran out, or the planner panicked. No trash directory is
  -- passed on.
  unfoldable pub sync_bidirectional : ℕ → SyncConfig → h.World → Option Synced
  unfolding plan_sync record_plan execute
  sync_bidirectional fuel c w = run_plan fuel c (plan_sync c w) w
