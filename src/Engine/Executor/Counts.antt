-- ===== src/Engine/Executor/Counts.antt =====
-- What `PlanExecutor::execute` of crates/cloud_sync_daemon/src/engine/executor.rs reports.
use cloud_sync_lib.Base.{
  ℕ, suc, ◌+◌, ◌<◌, ◌≡◌, refl, Bool, true, false, Option, some, List, [], ◌∷◌, arith,
}
use cloud_sync_lib.Base.Lists.{length}
use cloud_sync_lib.Storage.Errors.{Foreign, ok, err}
use cloud_sync_lib.Engine.Plan
use cloud_sync_lib.Engine.Plan.{SyncAction, SyncPlan}
use cloud_sync_lib.Engine.Host.{Host}
use cloud_sync_lib.Engine.Versioning.{VersioningConfig}
use cloud_sync_lib.Engine.Executor.{
  Outcome, Progress, ExecutionResult, executed, uploaded, count_result, no_result, download_file,
  delete_local_file, archive_if, execute_action, execute_one, execute_loop, execute,
}
use cloud_sync_lib.Engine.Executor.Chunks.{Progresses, upload_file_total}

-- The number of actions that the counters account for.
abbrev pub counted : ExecutionResult → ℕ
counted c = c.executed_actions + c.failed_actions

abbrev pub Trash : Type 0
Trash = Option VersioningConfig

module _ {F : Foreign} (h : Host F) where
  -- One action more is accounted for.
  abbrev Counts : ExecutionResult → Option (Progress h) → Type 0
  Counts c r = (g : Progress h) × (r ≡ some g) × (counted g.counters ≡ suc (counted c))

  count_result-Counts :
      (done c : ExecutionResult) (o : Outcome h)
      → counted done ≡ suc (counted c)
      → Counts c (some (count_result h done c o))
  count_result-Counts done c (ok u, w) e = (_, refl, e)
  count_result-Counts done c (err x, w) e = (_, refl, omega arith)

  executed-Counts :
      (c : ExecutionResult) (w : h.World)
      → Counts c (some (record { counters = executed c; world = w }))
  executed-Counts c w = (_, refl, omega arith)

  module _ (most fuel : ℕ) (v : Progresses h most) (m : most < fuel) (trash : Trash) where
    execute_action-Counts :
        (a : SyncAction) (g : Progress h) → Counts g.counters (execute_action h fuel trash a g)
    unfolding execute_action
    execute_action-Counts (Plan.upload l r size) g =
        let (o, e) = upload_file_total h most v fuel l r size g.world m in
        rw e (count_result-Counts (uploaded size g.counters) g.counters o (omega arith))
    execute_action-Counts (Plan.download r l size sum mode) g =
        count_result-Counts _ g.counters (download_file h trash r l mode g.world) (omega arith)
    execute_action-Counts (Plan.server_side_move from to) g =
        count_result-Counts _ g.counters (h.rename from to g.world) (omega arith)
    execute_action-Counts (Plan.server_side_copy from to) g =
        count_result-Counts _ g.counters (h.copy from to g.world) (omega arith)
    execute_action-Counts (Plan.delete_local l) g =
        executed-Counts g.counters (delete_local_file h trash l g.world)
    execute_action-Counts (Plan.delete_remote r) g =
        count_result-Counts _ g.counters (h.delete r g.world) (omega arith)
    execute_action-Counts (Plan.conflict p action) g = executed-Counts g.counters g.world
    execute_action-Counts (Plan.converge_state p s) g = executed-Counts g.counters g.world
    execute_action-Counts (Plan.archive_to_trash p is_remote) g =
        executed-Counts g.counters (archive_if h trash p g.world)

    execute_one-Counts :
        (dry_run : Bool) (a : SyncAction) (g : Progress h)
        → Counts g.counters (execute_one h fuel trash dry_run a g)
    unfolding execute_one
    execute_one-Counts true a g = executed-Counts g.counters g.world
    execute_one-Counts false a g = execute_action-Counts a g

    execute_loop_total :
        (dry_run : Bool) (as' : List SyncAction) (g : Progress h)
        → (g' : Progress h) × (execute_loop h fuel trash dry_run as' g ≡ some g')
          × (counted g'.counters ≡ counted g.counters + length as')
    unfolding execute_loop
    execute_loop_total dry_run [] g = (g, refl, omega arith)
    execute_loop_total dry_run (a ∷ as') g =
        let (g1, e1, c1) = execute_one-Counts dry_run a g in
        let (g2, e2, c2) = execute_loop_total dry_run as' g1 in
        (g2, rw (e1, execute_loop) e2, omega arith)

  -- If every accepted chunk of an upload session leaves less to send, and no session starts with
  -- as much as the fuel, then the execution of a plan ends, dry run or not, with or without a
  -- trash directory, and whatever the backend and the file system answer. Every action of the
  -- plan is then counted once, as executed or as failed.
  pub execute_total :
      (most fuel : ℕ) (trash : Option VersioningConfig) (dry_run : Bool) (plan : SyncPlan)
      (w : h.World)
      → Progresses h most
      → most < fuel
      → (g : Progress h) × (execute h fuel plan trash dry_run w ≡ some g)
        × (g.counters.executed_actions + g.counters.failed_actions ≡ length plan.actions)
  unfolding execute
  execute_total most fuel trash dry_run plan w v m =
      let (g, e, c) =
        execute_loop_total most fuel v m trash dry_run plan.actions
          (record { counters = no_result; world = w }) in
      (g, e, omega arith)
