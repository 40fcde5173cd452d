-- ===== src/Engine/Planner/Examples.antt =====
-- The planner at concrete trees.
use cloud_sync_lib.Base.{ℕ, ◌≡◌, refl, false, none, some, List, [], ◌∷◌, map}
use cloud_sync_lib.Base.Dict.{get, remove}
use cloud_sync_lib.Base.Text.{Text, codes, path_join}
use cloud_sync_lib.Base.Lists.{All}
use cloud_sync_lib.Base.Count.{SameItems}
use cloud_sync_lib.Storage.Capabilities
use cloud_sync_lib.Storage.Policy.{sync_both, sync_deletions, two_way, rename_local}
use cloud_sync_lib.Storage.State.{FileState}
use cloud_sync_lib.Engine.Conflict.{resolve, rename_local_and_download_remote}
use cloud_sync_lib.Engine.Conflict.Registry.{create_conflict_resolver, with_defaults}
use cloud_sync_lib.Engine.Plan
use cloud_sync_lib.Engine.Plan.{SyncPlan, new_plan, add_action}
use cloud_sync_lib.Engine.Scanner.{ScannedItem}
use cloud_sync_lib.Engine.Planner.{PlanInput, plan}
use cloud_sync_lib.Engine.Planner.Evidence.{IsEvident}
use cloud_sync_lib.Engine.Planner.Justified.{plan-IsEvident}
use cloud_sync_lib.Engine.Planner.Touched.{touches, concerned}
use cloud_sync_lib.Engine.Planner.Once.{plan-SameItems}
use cloud_sync_lib.Engine.Planner.Totals.{IsAccounted, plan-IsAccounted}
use cloud_sync_lib.Engine.Planner.Safety.{Respects, plan-Respects}

abbrev item : ℕ → ℕ → ScannedItem
item size modified = record {
  size = size;
  modified = modified;
  is_dir = false;
  checksum = none;
  permissions = none;
}

abbrev known : ℕ → ℕ → FileState
known size modified = record {
  size = size;
  local_modified = modified;
  remote_modified = modified;
  is_dir = some false;
  checksum = none;
  permissions = none;
}

abbrev input : PlanInput
input = record {
  backend_name = codes "box";
  capabilities = Capabilities.server_side_move;
  watch_dir = codes "/w";
  local_tree =
      (codes "edit", item 5 20)
      ∷ (codes "d/old.bin", item 9 30)
      ∷ (codes "gone", item 4 40)
      ∷ (codes "both", item 6 50)
      ∷ [];
  remote_tree =
      (codes "edit", item 3 10) ∷ (codes "old.bin", item 9 10) ∷ (codes "both", item 7 60) ∷ [];
  base_state = record {
    files =
        (codes "edit", known 3 10)
        ∷ (codes "old.bin", known 9 10)
        ∷ (codes "gone", known 1 10)
        ∷ (codes "both", known 3 10)
        ∷ [];
  };
  policy = record { mode = two_way };
  conflict_policy = rename_local;
  registry = with_defaults;
  now = 100;
}

abbrev order : List Text
order = codes "gone" ∷ codes "old.bin" ∷ codes "both" ∷ codes "edit" ∷ codes "d/old.bin" ∷ []

abbrev expected : SyncPlan
expected = record {
  backend_name = codes "box";
  created_at = 100;
  actions =
      Plan.delete_local (codes "/w/gone")
      ∷ Plan.conflict (codes "both")
          (rename_local_and_download_remote (codes "both.local-conflict"))
      ∷ Plan.upload (codes "/w/edit") (codes "edit") 5
      ∷ Plan.server_side_move (codes "old.bin") (codes "d/old.bin")
      ∷ [];
  total_upload_bytes = 5;
  total_download_bytes = 0;
  conflicts_count = 1;
}

planned : plan input order ≡ some expected
unfolding plan with_defaults get sync_deletions sync_both Plan.saturating_add path_join resolve
    create_conflict_resolver remove
planned = refl

plan-SameItems_example :
    (p : SyncPlan) × (plan input order ≡ some p)
    × SameItems
        (touches (codes "/w") p.actions)
        (map (path_join (codes "/w")) (concerned input order))
plan-SameItems_example = plan-SameItems input order

plan-IsEvident_example : All (IsEvident input) expected.actions
plan-IsEvident_example = plan-IsEvident input order expected planned

plan-IsAccounted_example : IsAccounted expected
plan-IsAccounted_example = plan-IsAccounted input order expected planned

plan-Respects_example : All (Respects input) expected.actions
plan-Respects_example = plan-Respects input order expected planned

abbrev calm : PlanInput
calm = record input {
  local_tree = (codes "a", item 3 10) ∷ [];
  remote_tree = (codes "a", item 3 10) ∷ [];
  base_state = record { files = (codes "a", known 3 10) ∷ (codes "b", known 2 10) ∷ [] };
}
