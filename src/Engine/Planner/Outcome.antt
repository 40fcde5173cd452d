-- ===== src/Engine/Planner/Outcome.antt =====
-- What the planner of crates/cloud_sync_daemon/src/engine/planner.rs decides for one path, apart
-- from the plan that it writes to: an action, a candidate for the rename detector, or nothing.
use cloud_sync_lib.Base.{◌≡◌, refl, ◌&&◌, Option, none, some, [], ◌∷◌, ◌++◌, arith, if◌then◌else◌}
use cloud_sync_lib.Base.Text.{Text, path_join}
use cloud_sync_lib.Base.Dict.{get}
use cloud_sync_lib.Storage.Policy.{sync_both, sync_deletions}
use cloud_sync_lib.Storage.State.{FileState}
use cloud_sync_lib.Engine.Conflict.{resolve}
use cloud_sync_lib.Engine.Conflict.Registry.{create_conflict_resolver}
use cloud_sync_lib.Engine.Plan
use cloud_sync_lib.Engine.Plan.{SyncAction, SyncPlan, add_action}
use cloud_sync_lib.Engine.Rename.{CandidateItem}
use cloud_sync_lib.Engine.Scanner.{ScannedItem}
use cloud_sync_lib.Engine.Planner.{
  PlanInput, Progress, local_changed, remote_changed, same_content, converged_state, upload_of,
  download_of, visit_entry, visit, reconcile, plan_everywhere, plan_remote_deleted,
}

pub data Outcome : Type 0 where
  acts : SyncAction → Outcome
  adds dels : CandidateItem → Outcome
  quiet : Outcome

unfoldable pub reconciled : PlanInput → Text → ScannedItem → ScannedItem → SyncAction
reconciled i p l r =
    if same_content l r
    then Plan.converge_state p (converged_state l r)
    else Plan.conflict p
        (resolve (create_conflict_resolver i.registry i.conflict_policy) p l.modified r.modified)

unfoldable pub outcome_entry :
    PlanInput → Text → Option ScannedItem → Option ScannedItem → Option FileState → Outcome
unfolding reconciled
outcome_entry i p (some l) (some r) (some s) =
    if local_changed l s
    then (if remote_changed r s then acts (reconciled i p l r) else acts (upload_of i p l))
    else if remote_changed r s && sync_both i.policy
    then acts (download_of i p r)
    else quiet
outcome_entry i p (some l) (some r) none = acts (reconciled i p l r)
outcome_entry i p (some l) none (some s) =
    if sync_both i.policy
    then (if sync_deletions i.policy
        then acts (Plan.delete_local (path_join i.watch_dir p))
        else quiet)
    else acts (upload_of i p l)
outcome_entry i p (some l) none none =
    adds (record { rel_path = p; size = l.size; checksum = l.checksum })
outcome_entry i p none (some r) (some s) =
    if sync_deletions i.policy
    then dels (record { rel_path = p; size = s.size; checksum = s.checksum })
    else quiet
outcome_entry i p none (some r) none =
    if sync_both i.policy then acts (download_of i p r) else quiet
outcome_entry i p none none so = quiet

unfoldable pub outcome : PlanInput → Text → Outcome
unfolding outcome_entry
outcome i p =
    outcome_entry i p (get p i.local_tree) (get p i.remote_tree) (get p i.base_state.files)

abbrev pub apply_outcome : Outcome → Progress → Progress
apply_outcome (acts a) g = record g { plan = add_action g.plan a }
apply_outcome (adds c) g = record g { candidate_additions = g.candidate_additions ++ c ∷ [] }
apply_outcome (dels c) g = record g { candidate_deletions = g.candidate_deletions ++ c ∷ [] }
apply_outcome quiet g = g

reconcile_lem :
    (i : PlanInput) (p : Text) (l r : ScannedItem) (plan : SyncPlan)
    → reconcile i p l r plan ≡ add_action plan (reconciled i p l r)
unfolding reconcile reconciled
reconcile_lem i p l r plan = ground arith

visit_entry-outcome :
    (i : PlanInput) (p : Text) (lo ro : Option ScannedItem) (so : Option FileState) (g : Progress)
    → visit_entry i p lo ro so g ≡ apply_outcome (outcome_entry i p lo ro so) g
unfolding visit_entry outcome_entry plan_everywhere plan_remote_deleted
visit_entry-outcome i p (some l) (some r) (some s) g = ground (arith, reconcile_lem i p l r g.plan)
visit_entry-outcome i p (some l) (some r) none g = ground (arith, reconcile_lem i p l r g.plan)
visit_entry-outcome i p (some l) none (some s) g = ground arith
visit_entry-outcome i p (some l) none none g = refl
visit_entry-outcome i p none (some r) (some s) g = ground arith
visit_entry-outcome i p none (some r) none g = ground arith
visit_entry-outcome i p none none so g = refl

-- The loop body does what the outcome says, and nothing else.
pub visit-outcome :
    (i : PlanInput) (p : Text) (g : Progress) → visit i p g ≡ apply_outcome (outcome i p) g
unfolding visit outcome
visit-outcome i p g =
    visit_entry-outcome i p (get p i.local_tree) (get p i.remote_tree) (get p i.base_state.files) g
