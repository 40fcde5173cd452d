-- ===== src/Engine/Planner.antt =====
-- crates/cloud_sync_daemon/src/engine/planner.rs: the three-way comparison of the base, local and
-- remote trees. The set `all_paths` is walked in an order that the hash set chooses: the walk is an
-- argument of `plan`.
pub mod Outcome
pub mod Steps
pub mod Finish
pub mod Evidence
pub mod Justified
pub mod Touched
pub mod Once
pub mod Totals
pub mod Safety
pub mod Emptied
pub mod Examples
use cloud_sync_lib.Base.{
  ℕ, Bool, false, not, ◌&&◌, ◌||◌, Option, none, some, List, [], ◌∷◌, ◌++◌, ◌==◌, if◌then◌else◌,
  or_else,
}
use cloud_sync_lib.Base.Text.{Text, text_eq, path_join}
use cloud_sync_lib.Base.Lists.{is_empty, any}
use cloud_sync_lib.Base.Dict.{Dict, get}
use cloud_sync_lib.Storage.Capabilities.{StorageCapabilities, server_side_move, has_capability}
use cloud_sync_lib.Storage.Policy.{SyncPolicy, ConflictPolicy, sync_both, sync_deletions}
use cloud_sync_lib.Storage.State.{FileState, SyncState}
use cloud_sync_lib.Engine.Conflict.{ConflictResolver, resolve}
use cloud_sync_lib.Engine.Conflict.Registry.{create_conflict_resolver}
use cloud_sync_lib.Engine.Plan
use cloud_sync_lib.Engine.Plan.{SyncPlan, new_plan, add_action}
use cloud_sync_lib.Engine.Rename.{CandidateItem, DetectedMove, Detection, detect_moves}
use cloud_sync_lib.Engine.Scanner.{ScannedItem}

-- The arguments of `SyncPlanner::plan`, the time and the global registry of strategies.
pub record PlanInput : Type 0 where
  pub backend_name : Text
  pub capabilities : StorageCapabilities
  pub watch_dir : Text
  pub local_tree : Dict ScannedItem
  pub remote_tree : Dict ScannedItem
  pub base_state : SyncState
  pub policy : SyncPolicy
  pub conflict_policy : ConflictPolicy
  pub registry : Dict ConflictResolver
  pub now : ℕ

-- The paths of a tree.
abbrev pub keys {ℓ} : {A : Type ℓ} → Dict A → List Text
keys [] = []
keys ((k, v) ∷ d) = k ∷ keys d

-- `HashSet::extend`
abbrev pub extend : List Text → List Text → List Text
extend [] set = set
extend (k ∷ ks) set =
    let rest = extend ks set in if any (λ x. text_eq x k) rest then rest else k ∷ rest

-- The distinct paths of the three trees.
unfoldable pub all_paths : PlanInput → List Text
unfolding text_eq
all_paths i =
    extend (keys i.base_state.files) (extend (keys i.remote_tree) (extend (keys i.local_tree) []))

-- The variables of the loop over the paths.
pub record Progress : Type 0 where
  pub plan : SyncPlan
  pub candidate_deletions : List CandidateItem
  pub candidate_additions : List CandidateItem

-- `a.is_some() && b.is_some() && a != b`
unfoldable pub differ_some : Option Text → Option Text → Bool
unfolding text_eq
differ_some none b = false
differ_some (some a) none = false
differ_some (some a) (some b) = not (text_eq a b)

unfoldable pub local_changed : ScannedItem → FileState → Bool
unfolding differ_some
local_changed local state =
    not (local.size == state.size)
    || not (local.modified == state.local_modified)
    || differ_some local.checksum state.checksum

unfoldable pub remote_changed : ScannedItem → FileState → Bool
unfolding differ_some
remote_changed remote state =
    not (remote.size == state.size)
    || not (remote.modified == state.remote_modified)
    || differ_some remote.checksum state.checksum

abbrev same_checksums : Option Text → Option Text → Bool → Bool
same_checksums (some lc) (some rc) otherwise = text_eq lc rc
same_checksums (some lc) none otherwise = otherwise
same_checksums none rc otherwise = otherwise

unfoldable pub same_content : ScannedItem → ScannedItem → Bool
unfolding text_eq
same_content local remote =
    same_checksums local.checksum remote.checksum (local.size == remote.size && local.size == 0)

unfoldable pub converged_state : ScannedItem → ScannedItem → FileState
converged_state local remote = record {
  size = local.size;
  local_modified = local.modified;
  remote_modified = remote.modified;
  is_dir = some local.is_dir;
  checksum = or_else local.checksum remote.checksum;
  permissions = or_else local.permissions remote.permissions;
}

-- The branch for two versions of a file: the states converge, or the policy resolves a conflict.
unfoldable pub reconcile : PlanInput → Text → ScannedItem → ScannedItem → SyncPlan → SyncPlan
unfolding same_content converged_state add_action
reconcile i rel_path local remote plan =
    if same_content local remote
    then add_action plan (Plan.converge_state rel_path (converged_state local remote))
    else add_action plan (
        Plan.conflict rel_path (
          resolve (create_conflict_resolver i.registry i.conflict_policy) rel_path local.modified
            remote.modified))

unfoldable pub upload_of : PlanInput → Text → ScannedItem → Plan.SyncAction
upload_of i rel_path local = Plan.upload (path_join i.watch_dir rel_path) rel_path local.size

unfoldable pub download_of : PlanInput → Text → ScannedItem → Plan.SyncAction
download_of i rel_path remote =
    Plan.download rel_path (path_join i.watch_dir rel_path) remote.size remote.checksum
      remote.permissions

-- Case 1: the path is in all three trees.
unfoldable pub plan_everywhere :
    PlanInput → Text → ScannedItem → ScannedItem → FileState → SyncPlan → SyncPlan
unfolding local_changed remote_changed reconcile upload_of download_of
plan_everywhere i rel_path local remote state plan =
    if local_changed local state && remote_changed remote state
    then reconcile i rel_path local remote plan
    else if local_changed local state
    then add_action plan (upload_of i rel_path local)
    else if remote_changed remote state && sync_both i.policy
    then add_action plan (download_of i rel_path remote)
    else plan

-- Case 5: the remote copy of a known path is gone.
unfoldable pub plan_remote_deleted : PlanInput → Text → ScannedItem → SyncPlan → SyncPlan
unfolding upload_of add_action
plan_remote_deleted i rel_path local plan =
    if sync_both i.policy && sync_deletions i.policy
    then add_action plan (Plan.delete_local (path_join i.watch_dir rel_path))
    else if not (sync_both i.policy)
    then add_action plan (upload_of i rel_path local)
    else plan

-- The `match` on the three lookups.
unfoldable pub visit_entry :
    PlanInput
    → Text
    → Option ScannedItem
    → Option ScannedItem
    → Option FileState
    → Progress
    → Progress
unfolding plan_everywhere plan_remote_deleted reconcile download_of
visit_entry i rel_path (some local) (some remote) (some state) g = record g {
  plan = plan_everywhere i rel_path local remote state g.plan;
}
visit_entry i rel_path (some local) none none g = record g {
  candidate_additions =
      g.candidate_additions
      ++ record { rel_path = rel_path; size = local.size; checksum = local.checksum } ∷ [];
}
visit_entry i rel_path none (some remote) none g =
    if sync_both i.policy
    then record g { plan = add_action g.plan (download_of i rel_path remote) }
    else g
visit_entry i rel_path none (some remote) (some state) g =
    if sync_deletions i.policy
    then record g {
      candidate_deletions =
          g.candidate_deletions
          ++ record { rel_path = rel_path; size = state.size; checksum = state.checksum } ∷ [];
    }
    else g
visit_entry i rel_path (some local) none (some state) g = record g {
  plan = plan_remote_deleted i rel_path local g.plan;
}
visit_entry i rel_path (some local) (some remote) none g = record g {
  plan = reconcile i rel_path local remote g.plan;
}
visit_entry i rel_path none none state g = g

unfoldable pub visit : PlanInput → Text → Progress → Progress
unfolding visit_entry
visit i rel_path g =
    visit_entry i rel_path (get rel_path i.local_tree) (get rel_path i.remote_tree)
      (get rel_path i.base_state.files) g

unfoldable pub visit_all : PlanInput → List Text → Progress → Progress
unfolding visit
visit_all i [] g = g
visit_all i (rel_path ∷ rest) g = visit_all i rest (visit i rel_path g)

unfoldable pub add_moves : List DetectedMove → SyncPlan → SyncPlan
unfolding add_action
add_moves [] plan = plan
add_moves (mv ∷ rest) plan =
    add_moves rest (add_action plan (Plan.server_side_move mv.source mv.target))

unfoldable pub add_deletions : List CandidateItem → SyncPlan → SyncPlan
unfolding add_action
add_deletions [] plan = plan
add_deletions (del ∷ rest) plan =
    add_deletions rest (add_action plan (Plan.delete_remote del.rel_path))

-- `local_tree.get(&add.rel_path).map(|i| i.size).unwrap_or(add.size)`
abbrev size_or : Option ScannedItem → ℕ → ℕ
size_or none d = d
size_or (some item) d = item.size

unfoldable pub addition_of : PlanInput → CandidateItem → Plan.SyncAction
addition_of i add =
    Plan.upload (path_join i.watch_dir add.rel_path) add.rel_path
      (size_or (get add.rel_path i.local_tree) add.size)

unfoldable pub add_additions : PlanInput → List CandidateItem → SyncPlan → SyncPlan
unfolding add_action addition_of
add_additions i [] plan = plan
add_additions i (add ∷ rest) plan = add_additions i rest (add_action plan (addition_of i add))

unfoldable pub add_detected : PlanInput → SyncPlan → Option Detection → Option SyncPlan
unfolding add_moves add_deletions add_additions
add_detected i plan none = none
add_detected i plan (some d) = some (
    add_additions i d.unmatched_additions
      (add_deletions d.unmatched_deletions (add_moves d.moves plan)))

unfoldable pub detects_moves : PlanInput → Progress → Bool
unfolding has_capability
detects_moves i g =
    has_capability i.capabilities server_side_move
    && not (is_empty g.candidate_deletions)
    && not (is_empty g.candidate_additions)

-- Step 2: the candidates become moves, deletions and uploads.
unfoldable pub finish_plan : PlanInput → Progress → Option SyncPlan
unfolding detects_moves add_detected detect_moves
finish_plan i g =
    if detects_moves i g
    then add_detected i g.plan (detect_moves g.candidate_deletions g.candidate_additions)
    else some (add_additions i g.candidate_additions (add_deletions g.candidate_deletions g.plan))

-- `none` would be the panic of `Vec::remove` in the rename detector.
unfoldable pub plan : PlanInput → List Text → Option SyncPlan
unfolding visit_all finish_plan new_plan
plan i walk = finish_plan i (
    visit_all i walk (record {
      plan = new_plan i.backend_name i.now;
      candidate_deletions = [];
      candidate_additions = [];
    }))
