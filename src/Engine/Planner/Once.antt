-- ===== src/Engine/Planner/Once.antt =====
-- The planner of crates/cloud_sync_daemon/src/engine/planner.rs treats each path once.
use cloud_sync_lib.Base.{ℕ, ◌+◌, ◌≡◌, some, List, [], ◌∷◌, ◌++◌, map, arith}
use cloud_sync_lib.Base.Count.{hit, total, total-map, SameItems}
use cloud_sync_lib.Base.Text.{Text, path_join}
use cloud_sync_lib.Engine.Plan.{SyncPlan, new_plan}
use cloud_sync_lib.Engine.Rename.{DetectedMove, Detection}
use cloud_sync_lib.Engine.Rename.Take.{Items, paths}
use cloud_sync_lib.Engine.Rename.Detected.{sources, targets}
use cloud_sync_lib.Engine.Planner.{PlanInput, addition_of, plan}
use cloud_sync_lib.Engine.Planner.Steps.{settled, actions-add_all}
use cloud_sync_lib.Engine.Planner.Finish.{
  finishing, move_action, delete_action, Settles, plan-add_all,
}
use cloud_sync_lib.Engine.Planner.Touched.{
  touches, touches-append, concerned, local_weight, concerned-settled,
}

module _ (i : PlanInput) (f : Text → ℕ) where
  moves-weight :
      (ms : List DetectedMove)
      → total f (touches i.watch_dir (map move_action ms))
        ≡ total (local_weight i f) (sources ms) + total (local_weight i f) (targets ms)
  moves-weight [] = omega arith
  moves-weight (m ∷ ms) = omega (arith, moves-weight ms)

  deletes-weight :
      (ds : Items)
      → total f (touches i.watch_dir (map delete_action ds)) ≡ total (local_weight i f) (paths ds)
  deletes-weight [] = omega arith
  deletes-weight (d ∷ ds) = omega (arith, deletes-weight ds)

  uploads-weight :
      (cs : Items)
      → total f (touches i.watch_dir (map (addition_of i) cs)) ≡ total (local_weight i f) (paths cs)
  unfolding addition_of
  uploads-weight [] = omega arith
  uploads-weight (c ∷ cs) = omega (arith, uploads-weight cs)

  finishing-weight :
      (d : Detection)
      → total f (touches i.watch_dir (finishing i d))
        ≡ total (local_weight i f) (sources d.moves)
          + total (local_weight i f) (targets d.moves)
          + total (local_weight i f) (paths d.unmatched_deletions)
          + total (local_weight i f) (paths d.unmatched_additions)
  finishing-weight d = omega (
    arith,
    touches-append f i.watch_dir (map move_action d.moves)
        (map delete_action d.unmatched_deletions ++ map (addition_of i) d.unmatched_additions),
    touches-append f i.watch_dir (map delete_action d.unmatched_deletions)
        (map (addition_of i) d.unmatched_additions),
    moves-weight d.moves,
    deletes-weight d.unmatched_deletions,
    uploads-weight d.unmatched_additions,
  )

  plan-weight :
      (ps : List Text) (d : Detection)
      → Settles i ps d
      → total f (touches i.watch_dir (settled i ps ++ finishing i d))
        ≡ total f (map (path_join i.watch_dir) (concerned i ps))
  plan-weight ps d s = omega (
    arith,
    touches-append f i.watch_dir (settled i ps) (finishing i d),
    finishing-weight d,
    concerned-settled i f ps,
    s.deleted_once (local_weight i f),
    s.added_once (local_weight i f),
    total-map f (path_join i.watch_dir) (concerned i ps),
  )

-- There is a plan for every input and order of the paths, and the local paths that its actions
-- are about, counted with multiplicity, are exactly the walked paths that need an action: a path
-- that needs one is treated once for each time it is walked, and no other path is touched.
pub plan-SameItems :
    (i : PlanInput) (ps : List Text)
    → (p : SyncPlan) × (plan i ps ≡ some p)
      × SameItems (touches i.watch_dir p.actions) (map (path_join i.watch_dir) (concerned i ps))
plan-SameItems i ps =
    let (d, e, s) = plan-add_all i ps in
    (_, e, λ q. rw actions-add_all (unfold new_plan in plan-weight i (hit q) ps d s))
