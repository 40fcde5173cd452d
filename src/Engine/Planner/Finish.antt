-- ===== src/Engine/Planner/Finish.antt =====
-- The second step of the planner of crates/cloud_sync_daemon/src/engine/planner.rs, and the whole
-- plan as one list of actions.
use cloud_sync_lib.Base.{
  ℕ, ◌+◌, ◌≡◌, refl, ap, ◌∙◌, sym, ◌⊎◌, inl, inr, true, some, List, [], ◌∷◌, ◌++◌, map, arith,
  Bool-cases,
}
use cloud_sync_lib.Base.Count.{total}
use cloud_sync_lib.Base.Text.{Text}
use cloud_sync_lib.Base.Lists.{All, In, All-In_self}
use cloud_sync_lib.Storage.Capabilities
use cloud_sync_lib.Storage.Capabilities.{has_capability}
use cloud_sync_lib.Engine.Plan
use cloud_sync_lib.Engine.Plan.{SyncAction, SyncPlan, new_plan}
use cloud_sync_lib.Engine.Rename.{CandidateItem, DetectedMove, Detection}
use cloud_sync_lib.Engine.Rename.Take.{Items, paths}
use cloud_sync_lib.Engine.Rename.Detected.{sources, targets, IsJustified, Inv, detect_moves-Inv}
use cloud_sync_lib.Engine.Planner.{
  PlanInput, Progress, add_moves, add_deletions, add_additions, add_detected, addition_of,
  detects_moves, finish_plan, plan,
}
use cloud_sync_lib.Engine.Planner.Steps.{
  add_all, add_all-append, settled, additions, deletions, visit_all-after_walk,
}

abbrev pub move_action : DetectedMove → SyncAction
move_action m = Plan.server_side_move m.source m.target

abbrev pub delete_action : CandidateItem → SyncAction
delete_action c = Plan.delete_remote c.rel_path

-- The actions that the second step adds.
abbrev pub finishing : PlanInput → Detection → List SyncAction
finishing i d =
    map move_action d.moves
    ++ (map delete_action d.unmatched_deletions ++ map (addition_of i) d.unmatched_additions)

add_moves-add_all :
    (ms : List DetectedMove) (p : SyncPlan) → add_moves ms p ≡ add_all p (map move_action ms)
unfolding add_moves add_all
add_moves-add_all [] p = refl
add_moves-add_all (m ∷ ms) p = add_moves-add_all ms _

add_deletions-add_all :
    (ds : Items) (p : SyncPlan) → add_deletions ds p ≡ add_all p (map delete_action ds)
unfolding add_deletions add_all
add_deletions-add_all [] p = refl
add_deletions-add_all (d ∷ ds) p = add_deletions-add_all ds _

add_additions-add_all :
    (i : PlanInput) (as' : Items) (p : SyncPlan)
    → add_additions i as' p ≡ add_all p (map (addition_of i) as')
unfolding add_additions add_all
add_additions-add_all i [] p = refl
add_additions-add_all i (a ∷ as') p = add_additions-add_all i as' _

finishing-add_all :
    (i : PlanInput) (d : Detection) (p : SyncPlan)
    → add_additions i d.unmatched_additions
        (add_deletions d.unmatched_deletions (add_moves d.moves p))
      ≡ add_all p (finishing i d)
finishing-add_all i d p =
    add_additions-add_all i d.unmatched_additions _
    ∙ rw (add_deletions-add_all d.unmatched_deletions, add_moves-add_all d.moves)
        (sym (
          add_all-append p (map move_action d.moves) _
          ∙ add_all-append (add_all p (map move_action d.moves))
              (map delete_action d.unmatched_deletions) _))

-- With no move detected the candidates are left as they are.
abbrev pub no_moves : Items → Items → Detection
no_moves ds as' = record { moves = []; unmatched_deletions = ds; unmatched_additions = as' }

pub no_moves-add_all :
    (i : PlanInput) (ds as' : Items) (p : SyncPlan)
    → add_additions i as' (add_deletions ds p) ≡ add_all p (finishing i (no_moves ds as'))
unfolding add_moves
no_moves-add_all i ds as' p = finishing-add_all i (no_moves ds as') p

-- What is known of the moves and of the candidates left over.
pub record Settles (i : PlanInput) (ps : List Text) (d : Detection) : Type 0 where
  pub deleted_once :
      (f : Text → ℕ)
      → total f (sources d.moves) + total f (paths d.unmatched_deletions)
        ≡ total f (paths (deletions i ps))
  pub added_once :
      (f : Text → ℕ)
      → total f (targets d.moves) + total f (paths d.unmatched_additions)
        ≡ total f (paths (additions i ps))
  pub moved : All (IsJustified (deletions i ps) (additions i ps)) d.moves
  pub dels_given : All (λ c. In c (deletions i ps)) d.unmatched_deletions
  pub adds_given : All (λ c. In c (additions i ps)) d.unmatched_additions
  pub allowed :
      (d.moves ≡ []) ⊎ (has_capability i.capabilities Capabilities.server_side_move ≡ true)

no_moves-Settles :
    (i : PlanInput) (ps : List Text) → Settles i ps (no_moves (deletions i ps) (additions i ps))
no_moves-Settles i ps = record {
  deleted_once = λ f. omega arith;
  added_once = λ f. omega arith;
  moved = tt;
  dels_given = All-In_self (deletions i ps);
  adds_given = All-In_self (additions i ps);
  allowed = inl refl;
}

detected-Settles :
    (i : PlanInput) (ps : List Text) (d : Detection)
    → has_capability i.capabilities Capabilities.server_side_move ≡ true
    → Inv (deletions i ps) (additions i ps) [] d
    → Settles i ps d
detected-Settles i ps d can v = record {
  deleted_once = λ f. omega (arith, v.deleted f);
  added_once = v.added;
  moved = v.moved;
  dels_given = v.left_given;
  adds_given = v.adds_given;
  allowed = inr can;
}

-- The progress after the walk over the paths.
abbrev pub walked : PlanInput → List Text → Progress
walked i ps = record {
  plan = add_all (new_plan i.backend_name i.now) (settled i ps);
  candidate_deletions = deletions i ps;
  candidate_additions = additions i ps;
}

abbrev Finishes : PlanInput → List Text → Type 0
Finishes i ps =
    (d : Detection) × (finish_plan i (walked i ps)
      ≡ some (add_all (walked i ps).plan (finishing i d)))
    × Settles i ps d

capable :
    (i : PlanInput) (g : Progress)
    → detects_moves i g ≡ true
    → has_capability i.capabilities Capabilities.server_side_move ≡ true
unfolding detects_moves
capable i g h = ground arith

finish_plan-Finishes : (i : PlanInput) (ps : List Text) → Finishes i ps
unfolding finish_plan
finish_plan-Finishes i ps = elim (Bool-cases (detects_moves i (walked i ps))) [
  | inl yes' ↦
      let (d, e, v) = detect_moves-Inv (deletions i ps) (additions i ps) in
      (
        d,
        rw yes' (ap (add_detected i _) e ∙ ap some (finishing-add_all i d _)),
        detected-Settles i ps d (capable i (walked i ps) yes') v,
      )
  | inr no' ↦ (
    no_moves (deletions i ps) (additions i ps),
    rw no' (ap some (no_moves-add_all i (deletions i ps) (additions i ps) _)),
    no_moves-Settles i ps,
  )
]

-- The whole plan is its actions, added in turn to the empty plan: those of the walk, then those
-- of the second step. There always is a plan.
pub plan-add_all :
    (i : PlanInput) (ps : List Text)
    → (d : Detection) × (plan i ps
        ≡ some (add_all (new_plan i.backend_name i.now) (settled i ps ++ finishing i d)))
      × Settles i ps d
unfolding plan
plan-add_all i ps =
    let (d, e, s) = finish_plan-Finishes i ps in
    (
      d,
      ap (finish_plan i) (visit_all-after_walk i ps _)
          ∙ e
          ∙ ap some (sym (add_all-append _ (settled i ps) (finishing i d))),
      s,
    )

pub plan_total : (i : PlanInput) (ps : List Text) → (p : SyncPlan) × (plan i ps ≡ some p)
plan_total i ps = let (d, e, v) = plan-add_all i ps in (_, e)
