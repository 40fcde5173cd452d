-- ===== src/Engine/Planner/Steps.antt =====
-- The walk of the planner of crates/cloud_sync_daemon/src/engine/planner.rs over the paths as one list of actions.
use cloud_sync_lib.Base.{◌≡◌, refl, ap, ◌∙◌, sym, List, [], ◌∷◌, ◌++◌, arith}
use mathlib.Core.List.{append_assoc, append-nil}
use cloud_sync_lib.Base.Text.{Text}
use cloud_sync_lib.Engine.Plan
use cloud_sync_lib.Engine.Plan.{server_side_move, SyncAction, SyncPlan, add_action, new_plan}
use cloud_sync_lib.Engine.Rename.Take.{Items}
use cloud_sync_lib.Engine.Planner.{PlanInput, Progress, visit_all}
use cloud_sync_lib.Engine.Planner.Outcome.{
  Outcome, acts, adds, dels, quiet, outcome, apply_outcome, visit-outcome,
}

-- Adding the actions of a list in turn.
unfoldable pub add_all : SyncPlan → List SyncAction → SyncPlan
add_all p [] = p
add_all p (a ∷ as') = add_all (add_action p a) as'

pub add_all-nil : (p : SyncPlan) → add_all p [] ≡ p
unfolding add_all
add_all-nil p = refl

pub add_all-append :
    (p : SyncPlan) (xs ys : List SyncAction) → add_all p (xs ++ ys) ≡ add_all (add_all p xs) ys
unfolding add_all
add_all-append p [] ys = refl
add_all-append p (x ∷ xs) ys = add_all-append (add_action p x) xs ys

actions-add_action :
    (p : SyncPlan) (a : SyncAction) → (add_action p a).actions ≡ p.actions ++ a ∷ []
unfolding add_action
actions-add_action p (Plan.upload l r n) = refl
actions-add_action p _ = refl

pub actions-add_all :
    (p : SyncPlan) (xs : List SyncAction) → (add_all p xs).actions ≡ p.actions ++ xs
unfolding add_all
actions-add_all p [] = sym (append-nil p.actions)
actions-add_all p (x ∷ xs) =
    actions-add_all (add_action p x) xs
    ∙ ap (λ (t : List SyncAction). t ++ xs) (actions-add_action p x)
    ∙ append_assoc p.actions (x ∷ []) xs

abbrev pub acted : Outcome → List SyncAction
acted (acts a) = a ∷ []
acted _ = []

abbrev pub added : Outcome → Items
added (adds c) = c ∷ []
added _ = []

abbrev pub deleted : Outcome → Items
deleted (dels c) = c ∷ []
deleted _ = []

-- The outcomes of a walk, by kind.
unfoldable pub settled : PlanInput → List Text → List SyncAction
settled i [] = []
settled i (p ∷ ps) = acted (outcome i p) ++ settled i ps

unfoldable pub additions : PlanInput → List Text → Items
additions i [] = []
additions i (p ∷ ps) = added (outcome i p) ++ additions i ps

unfoldable pub deletions : PlanInput → List Text → Items
deletions i [] = []
deletions i (p ∷ ps) = deleted (outcome i p) ++ deletions i ps

abbrev pub after_walk : PlanInput → List Text → Progress → Progress
after_walk i ps g = record {
  plan = add_all g.plan (settled i ps);
  candidate_deletions = g.candidate_deletions ++ deletions i ps;
  candidate_additions = g.candidate_additions ++ additions i ps;
}

abbrev gathered : Progress → List SyncAction → Items → Items → Progress
gathered g xs ds as' = record {
  plan = add_all g.plan xs;
  candidate_deletions = g.candidate_deletions ++ ds;
  candidate_additions = g.candidate_additions ++ as';
}

gathered-apply_outcome :
    (o : Outcome) (g : Progress) (xs : List SyncAction) (ds as' : Items)
    → gathered (apply_outcome o g) xs ds as'
      ≡ gathered g (acted o ++ xs) (deleted o ++ ds) (added o ++ as')
unfolding add_all
gathered-apply_outcome (acts a) g xs ds as' = refl
gathered-apply_outcome (adds c) g xs ds as' = simp append_assoc
gathered-apply_outcome (dels c) g xs ds as' = simp append_assoc
gathered-apply_outcome quiet g xs ds as' = refl

pub visit_all-after_walk :
    (i : PlanInput) (ps : List Text) (g : Progress) → visit_all i ps g ≡ after_walk i ps g
unfolding visit_all settled additions deletions
visit_all-after_walk i [] g =
    ground (
      arith,
      append-nil g.candidate_deletions,
      append-nil g.candidate_additions,
      add_all-nil g.plan,
    )
visit_all-after_walk i (p ∷ ps) g =
    ap (visit_all i ps) (visit-outcome i p g)
    ∙ visit_all-after_walk i ps (apply_outcome (outcome i p) g)
    ∙ gathered-apply_outcome (outcome i p) g (settled i ps) (deletions i ps) (additions i ps)
