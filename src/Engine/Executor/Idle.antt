-- ===== src/Engine/Executor/Idle.antt =====
-- Plans that `PlanExecutor::execute` of crates/cloud_sync_daemon/src/engine/executor.rs reports as
-- executed without any effect.
use cloud_sync_lib.Base.{
  ℕ, ◌+◌, ◌≡◌, refl, ◌∙◌, Bool, true, false, Option, some, List, [], ◌∷◌, arith,
}
use cloud_sync_lib.Base.Lists.{length, All}
use cloud_sync_lib.Storage.Errors.{Foreign}
use cloud_sync_lib.Engine.Plan
use cloud_sync_lib.Engine.Plan.{SyncAction, SyncPlan}
use cloud_sync_lib.Engine.Host.{Host}
use cloud_sync_lib.Engine.Versioning.{VersioningConfig}
use cloud_sync_lib.Engine.Executor.{
  Progress, ExecutionResult, no_result, execute_one, execute_loop, execute, executed,
}

abbrev counted_only : ℕ → ExecutionResult → ExecutionResult
counted_only n c = record c { executed_actions = c.executed_actions + n }

-- Actions that settle two versions of a file.
abbrev pub IsResolution : SyncAction → Type 0
IsResolution (Plan.conflict p a) = Unit
IsResolution (Plan.converge_state p s) = Unit
IsResolution _ = ⊥

abbrev pub all_executed : SyncPlan → ExecutionResult
all_executed plan = record no_result { executed_actions = length plan.actions }

module _ {F : Foreign} (h : Host F) (fuel : ℕ) (trash : Option VersioningConfig) where
  -- A step that only counts the action as executed.
  abbrev IsIdle : Bool → SyncAction → Type 0
  IsIdle dry_run a =
      (g : Progress h)
      → execute_one h fuel trash dry_run a g ≡ some (record g { counters = executed g.counters })

  dry_run-IsIdle : (a : SyncAction) → IsIdle true a
  unfolding execute_one
  dry_run-IsIdle a g = refl

  resolution-IsIdle : (a : SyncAction) → IsResolution a → IsIdle false a
  unfolding execute_one
  resolution-IsIdle (Plan.conflict p a) r g = refl
  resolution-IsIdle (Plan.converge_state p s) r g = refl
  resolution-IsIdle _ r g = absurd r

  loop-idle :
      (dry_run : Bool) (as' : List SyncAction) (g : Progress h)
      → All (IsIdle dry_run) as'
      → execute_loop h fuel trash dry_run as' g
        ≡ some (record g { counters = counted_only (length as') g.counters })
  unfolding execute_loop
  loop-idle dry_run [] g i = ground arith
  loop-idle dry_run (a ∷ as') g i =
      rw (i.0 g, execute_loop)
        (loop-idle dry_run as' (record g { counters = executed g.counters }) i.1 ∙ ground arith)

  dry_counted : (as' : List SyncAction) → All (IsIdle true) as'
  dry_counted [] = tt
  dry_counted (a ∷ as') = (dry_run-IsIdle a, dry_counted as')

  resolved_counted : (as' : List SyncAction) → All IsResolution as' → All (IsIdle false) as'
  resolved_counted [] r = tt
  resolved_counted (a ∷ as') r = (resolution-IsIdle a r.0, resolved_counted as' r.1)

  -- A dry run of any plan changes nothing in the world and reports every action as executed, none
  -- as failed and no bytes.
  execute-dry_run :
      (plan : SyncPlan) (w : h.World)
      → execute h fuel plan trash true w ≡ some (record { counters = all_executed plan; world = w })
  unfolding execute
  execute-dry_run plan w = loop-idle true plan.actions _ (dry_counted plan.actions) ∙ ground arith

  -- A real run of a plan of conflicts and converged states changes nothing in the world either,
  -- whatever the resolutions say, and reports every action as executed.
  execute-conflicts :
      (plan : SyncPlan) (w : h.World)
      → All IsResolution plan.actions
      → execute h fuel plan trash false w
        ≡ some (record { counters = all_executed plan; world = w })
  unfolding execute
  execute-conflicts plan w r =
      loop-idle false plan.actions _ (resolved_counted plan.actions r) ∙ ground arith
