-- ===== src/Engine/Orchestrator/Examples.antt =====
-- The pass after an upload, a download and a move of one file.
use cloud_sync_lib.Storage.Policy.{sync_deletions}
use cloud_sync_lib.Engine.Scanner.Local.{scan_local}
use cloud_sync_lib.Base.{Bool, ℕ, ◌≡◌, refl, inl, false, none, some, List, [], ◌∷◌}
use cloud_sync_lib.Storage.Errors.{Result, ok}
use cloud_sync_lib.Storage.State.{FileState, default_state}
use cloud_sync_lib.Engine.Filter.{FileFilter}
use cloud_sync_lib.Engine.Scanner.Local.{DirEntry}
use cloud_sync_lib.Engine.Orchestrator.Missing.{missing_dir_deletes}
use cloud_sync_lib.Engine.Planner.{PlanInput, plan}
use cloud_sync_lib.Base.Dict.{Dict, get, remove, insert}
use cloud_sync_lib.Base.Text.{Text, codes, path_join, text_eq}
use cloud_sync_lib.Base.Lists.{In}
use cloud_sync_lib.Storage.Capabilities
use cloud_sync_lib.Storage.Policy.{sync_both, two_way, rename_local}
use cloud_sync_lib.Engine.Conflict.{resolve}
use cloud_sync_lib.Engine.Conflict.Registry.{create_conflict_resolver, with_defaults}
use cloud_sync_lib.Engine.Plan
use cloud_sync_lib.Engine.Plan.{SyncAction, SyncPlan, new_plan, add_action}
use cloud_sync_lib.Engine.Scanner.{ScannedItem}
use cloud_sync_lib.Engine.Orchestrator.{recorded, record_actions}

abbrev item : ℕ → ScannedItem
item modified = record {
  size = 3;
  modified = modified;
  is_dir = false;
  checksum = none;
  permissions = none;
}

abbrev clock : Text → ℕ
clock path = 20

abbrev input : ℕ → List SyncAction → PlanInput
input remote_time actions = record {
  backend_name = codes "box";
  capabilities = Capabilities.server_side_move;
  watch_dir = codes "/w";
  local_tree = (codes "a", item 20) ∷ [];
  remote_tree = (codes "a", item remote_time) ∷ [];
  base_state = record_actions (codes "/w") clock actions default_state;
  policy = record { mode = two_way };
  conflict_policy = rename_local;
  registry = with_defaults;
  now = 100;
}

abbrev sent : List SyncAction
sent = Plan.upload (codes "/w/a") (codes "a") 3 ∷ []

abbrev fetched : List SyncAction
fetched = Plan.download (codes "a") (codes "/w/a") 3 none none ∷ []

abbrev moved : List SyncAction
moved = Plan.server_side_move (codes "b") (codes "a") ∷ []

abbrev walk : List Text
walk = codes "a" ∷ []

abbrev one_action : SyncAction → SyncPlan
one_action a = add_action (new_plan (codes "box") 100) a

abbrev again : SyncAction
again = Plan.download (codes "a") (codes "/w/a") 3 none none

planned_again : plan (input 25 fetched) walk ≡ some (one_action again)
unfolding plan get sync_both path_join record_actions insert remove text_eq
planned_again = refl

abbrev clash : SyncAction
clash =
    Plan.conflict (codes "a")
      (resolve (create_conflict_resolver with_defaults rename_local) (codes "a") 20 25)

planned_clash : plan (input 25 moved) walk ≡ some (one_action clash)
unfolding plan get sync_both path_join record_actions insert remove text_eq
planned_clash = refl

abbrev no_dir : Text → Bool
no_dir path = false

abbrev no_entries : Text → Result ℕ (List (Result ℕ DirEntry))
no_entries path = ok []

abbrev everything : FileFilter
everything = record {
  is_ignored = λ path is_dir. false;
  selective_sync = none;
  min_size = none;
  max_size = none;
}

abbrev known : FileState
known = recorded 3 10 none none

abbrev unmounted : PlanInput
unmounted = record (input 10 []) {
  local_tree = [];
  base_state = record { files = (codes "a", known) ∷ [] };
}

missing_dir_deletes_example :
    (tree : Dict ScannedItem) × (scan_local no_dir no_entries everything (codes "/w") 0
      ≡ some (ok tree))
    × (p : SyncPlan) × (plan (record unmounted { local_tree = tree }) walk ≡ some p)
    × In (Plan.delete_remote (codes "a")) p.actions
unfolding get text_eq sync_deletions
missing_dir_deletes_example =
    missing_dir_deletes no_dir no_entries everything 0 unmounted (codes "a") (item 10) known walk
      refl refl refl refl (inl refl)
