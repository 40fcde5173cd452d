-- ===== src/Engine/Planner/Emptied.antt =====
-- What the planner of crates/cloud_sync_daemon/src/engine/planner.rs does when the local tree is empty.
use cloud_sync_lib.Engine.Plan.{new_plan}
use mathlib.Core.Path.{subst}
use cloud_sync_lib.Engine.Plan
use cloud_sync_lib.Engine.Planner.Finish.{
  no_moves-add_all, walked, no_moves, finishing, delete_action,
}
use cloud_sync_lib.Base.{
  ◌++◌, ap, sym, ◌∙◌, true, ◌≡◌, refl, inl, inr, Option, none, some, List, [], ◌∷◌, map, arith,
}
use cloud_sync_lib.Engine.Planner.Steps.{
  actions-add_all, visit_all-after_walk, add_all-append, settled, add_all, additions, deletions,
  added, deleted,
}
use cloud_sync_lib.Base.Text.{Text}
use cloud_sync_lib.Base.Lists.{In, In-append_left, In-append_right}
use cloud_sync_lib.Base.Dict.{get}
use cloud_sync_lib.Storage.State.{FileState}
use cloud_sync_lib.Engine.Scanner.{ScannedItem}
use cloud_sync_lib.Engine.Rename.{CandidateItem}
use cloud_sync_lib.Engine.Rename.Take.{Items}
use cloud_sync_lib.Engine.Planner.{
  SyncPlan, detects_moves, finish_plan, plan, sync_deletions, PlanInput,
}
use cloud_sync_lib.Engine.Planner.Outcome.{dels, outcome, outcome_entry}

added_entry-none :
    (i : PlanInput) (p : Text) (ro : Option ScannedItem) (so : Option FileState)
    → added (outcome_entry i p none ro so) ≡ []
unfolding outcome_entry
added_entry-none i p (some r) (some s) = ground arith
added_entry-none i p (some r) none = ground arith
added_entry-none i p none so = refl

added-none : (i : PlanInput) (p : Text) → get p i.local_tree ≡ none → added (outcome i p) ≡ []
unfolding outcome
added-none i p e = rw e (added_entry-none i p (get p i.remote_tree) (get p i.base_state.files))

-- Nothing is new in an empty tree.
additions-nil :
    (i : PlanInput) (ps : List Text)
    → ((p : Text) → get p i.local_tree ≡ none)
    → additions i ps ≡ []
unfolding additions
additions-nil i [] e = refl
additions-nil i (p ∷ ps) e = rw (added-none i p (e p)) (additions-nil i ps e)

deletions-In :
    (i : PlanInput) (q : Text) (c : CandidateItem) (ps : List Text)
    → outcome i q ≡ dels c
    → In q ps
    → In c (deletions i ps)
unfolding deletions
deletions-In i q c [] h m = absurd m
deletions-In i q c (p ∷ ps) h (inl e) =
    In-append_left c (deleted (outcome i p)) (deletions i ps)
      (subst (λ x. In c (deleted (outcome i x))) e (rw h (inl refl)))
deletions-In i q c (p ∷ ps) h (inr m) =
    In-append_right c (deleted (outcome i p)) (deletions i ps) (deletions-In i q c ps h m)

delete_action-In :
    (c : CandidateItem) (cs : Items) → In c cs → In (delete_action c) (map delete_action cs)
delete_action-In c [] m = absurd m
delete_action-In c (d ∷ cs) (inl e) = inl (ap delete_action e)
delete_action-In c (d ∷ cs) (inr m) = inr (delete_action-In c cs m)

-- With no additions nothing is a move, whatever the candidates for deletion are.
finish_plan-no_moves :
    (i : PlanInput) (ps : List Text)
    → additions i ps ≡ []
    → finish_plan i (walked i ps)
      ≡ some (add_all (walked i ps).plan (finishing i (no_moves (deletions i ps) (additions i ps))))
unfolding finish_plan detects_moves
finish_plan-no_moves i ps e =
    rw (no_moves-add_all i (deletions i ps) (additions i ps) (walked i ps).plan) (ground (arith, e))

finishing-In :
    (i : PlanInput) (c : CandidateItem) (ps : List Text)
    → In c (deletions i ps)
    → In (delete_action c) (finishing i (no_moves (deletions i ps) (additions i ps)))
finishing-In i c ps m =
    In-append_left (delete_action c) (map delete_action (deletions i ps)) _
      (delete_action-In c (deletions i ps) m)

outcome-dels :
    (i : PlanInput) (q : Text) (remote : ScannedItem) (base : FileState)
    → sync_deletions i.policy ≡ true
    → get q i.local_tree ≡ none
    → get q i.remote_tree ≡ some remote
    → get q i.base_state.files ≡ some base
    → outcome i q ≡ dels (record { rel_path = q; size = base.size; checksum = base.checksum })
unfolding outcome outcome_entry
outcome-dels i q remote base d hl hr hs = rw (hl, hr, hs, d) refl

-- When the local tree is empty, in a mode that propagates deletions, the plan deletes the remote
-- copy of every known path of the walk.
pub plan-deletes_emptied :
    (i : PlanInput) (q : Text) (remote : ScannedItem) (base : FileState) (ps : List Text)
    (p : SyncPlan)
    → sync_deletions i.policy ≡ true
    → ((r : Text) → get r i.local_tree ≡ none)
    → get q i.remote_tree ≡ some remote
    → get q i.base_state.files ≡ some base
    → In q ps
    → plan i ps ≡ some p
    → In (Plan.delete_remote q) p.actions
unfolding plan
plan-deletes_emptied i q remote base ps p d hl hr hs m e =
    let c : CandidateItem = record { rel_path = q; size = base.size; checksum = base.checksum } in
    let left = finishing i (no_moves (deletions i ps) (additions i ps)) in
    let gone = deletions-In i q c ps (outcome-dels i q remote base d (hl q) hr hs) m in
    let made : plan i ps ≡ some (add_all (new_plan i.backend_name i.now) (settled i ps ++ left)) =
      ap (finish_plan i) (visit_all-after_walk i ps _)
      ∙ finish_plan-no_moves i ps (additions-nil i ps hl)
      ∙ ap some (sym (add_all-append _ (settled i ps) left)) in
    let same : add_all (new_plan i.backend_name i.now) (settled i ps ++ left) ≡ p = cc in
    subst (λ x. In (Plan.delete_remote q) x.actions) same
      (rw actions-add_all (
        unfold new_plan in
        In-append_right (Plan.delete_remote q) (settled i ps) left (finishing-In i c ps gone)))
