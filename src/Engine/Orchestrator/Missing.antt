-- ===== src/Engine/Orchestrator/Missing.antt =====
-- What the local scan of crates/cloud_sync_daemon/src/engine/scanner.rs yields for a watched directory
-- that is not there, and what a synchronisation does with it.
use cloud_sync_lib.Base.{ℕ, Bool, ◌≡◌, refl, true, false, some, List, []}
use cloud_sync_lib.Base.Text.{Text}
use cloud_sync_lib.Base.Lists.{In}
use cloud_sync_lib.Base.Dict.{Dict, get}
use cloud_sync_lib.Storage.Errors.{Result, ok}
use cloud_sync_lib.Storage.Policy.{sync_deletions}
use cloud_sync_lib.Storage.State.{FileState}
use cloud_sync_lib.Engine.Filter.{FileFilter}
use cloud_sync_lib.Engine.Plan
use cloud_sync_lib.Engine.Plan.{SyncPlan}
use cloud_sync_lib.Engine.Scanner.{ScannedItem}
use cloud_sync_lib.Engine.Scanner.Local.{DirEntry, scan_local}
use cloud_sync_lib.Engine.Planner.{PlanInput, plan}
use cloud_sync_lib.Engine.Planner.Finish.{plan_total}
use cloud_sync_lib.Engine.Planner.Emptied.{plan-deletes_emptied}

module _ {E : Type 0} (exists : Text → Bool) (read_dir : Text → Result E (List (Result E DirEntry)))
    (filter : FileFilter) where
  scan_local-missing :
      (watch_dir : Text) (fuel : ℕ)
      → exists watch_dir ≡ false
      → scan_local exists read_dir filter watch_dir fuel ≡ some (ok [])
  unfolding scan_local
  scan_local-missing watch_dir fuel e = rw e refl

  -- Let the watched directory not exist when it is scanned, as when its disk is not mounted. The
  -- scan succeeds all the same, with some tree, and the plan made from that tree, in a mode that
  -- propagates deletions, exists and deletes the remote copy of every walked path that the remote
  -- tree and the catalog have.
  pub missing_dir_deletes :
      (fuel : ℕ) (i : PlanInput) (q : Text) (remote : ScannedItem) (base : FileState)
      (ps : List Text)
      → exists i.watch_dir ≡ false
      → sync_deletions i.policy ≡ true
      → get q i.remote_tree ≡ some remote
      → get q i.base_state.files ≡ some base
      → In q ps
      → (tree : Dict ScannedItem) × (scan_local exists read_dir filter i.watch_dir fuel
          ≡ some (ok tree))
        × (p : SyncPlan) × (plan (record i { local_tree = tree }) ps ≡ some p)
        × In (Plan.delete_remote q) p.actions
  unfolding get
  missing_dir_deletes fuel i q remote base ps e d hr hs m =
      let i' : PlanInput = record i { local_tree = [] } in
      let (p, planned) = plan_total i' ps in
      (
        [],
        scan_local-missing i.watch_dir fuel e,
        p,
        planned,
        plan-deletes_emptied i' q remote base ps p d (λ r. refl) hr hs m planned,
      )
