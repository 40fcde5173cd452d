-- ===== src/Engine/Plan.antt =====
-- crates/cloud_sync_daemon/src/engine/plan.rs: actions, and the plan with its totals.
use cloud_sync_lib.Base.{ℕ, ◌+◌, ◌-◌, ◌^◌, min, Bool, Option, List, [], ◌∷◌, ◌++◌}
use cloud_sync_lib.Base.Text.{Text}
use cloud_sync_lib.Storage.State.{FileState}
use cloud_sync_lib.Engine.Conflict.{ConflictResolutionAction}

-- The fields of each action in the order of the source.
pub data SyncAction : Type 0 where
  -- local_path, remote_path, size
  upload : Text → Text → ℕ → SyncAction
  -- remote_path, local_path, size, checksum, permissions
  download : Text → Text → ℕ → Option Text → Option ℕ → SyncAction
  -- from, to
  server_side_move : Text → Text → SyncAction
  server_side_copy : Text → Text → SyncAction
  delete_local : Text → SyncAction
  delete_remote : Text → SyncAction
  -- path, is_remote
  archive_to_trash : Text → Bool → SyncAction
  conflict : Text → ConflictResolutionAction → SyncAction
  converge_state : Text → FileState → SyncAction

pub record SyncPlan : Type 0 where
  pub backend_name : Text
  pub created_at : ℕ
  pub actions : List SyncAction
  pub total_upload_bytes : ℕ
  pub total_download_bytes : ℕ
  pub conflicts_count : ℕ

abbrev pub u64_max : ℕ
u64_max = 2 ^ 64 - 1

-- `u64::saturating_add`, and `usize::saturating_add` on a 64-bit target
unfoldable pub saturating_add : ℕ → ℕ → ℕ
saturating_add a b = min (a + b) u64_max

unfoldable pub new_plan : Text → ℕ → SyncPlan
new_plan backend_name now = record {
  backend_name = backend_name;
  created_at = now;
  actions = [];
  total_upload_bytes = 0;
  total_download_bytes = 0;
  conflicts_count = 0;
}

abbrev count_action : SyncAction → SyncPlan → SyncPlan
count_action (upload l r size) p = record p {
  total_upload_bytes = saturating_add p.total_upload_bytes size;
}
count_action (download r l size c m) p = record p {
  total_download_bytes = saturating_add p.total_download_bytes size;
}
count_action (conflict path action) p = record p {
  conflicts_count = saturating_add p.conflicts_count 1;
}
count_action _ p = p

unfoldable pub add_action : SyncPlan → SyncAction → SyncPlan
add_action p a = let q = count_action a p in record q { actions = q.actions ++ a ∷ [] }
