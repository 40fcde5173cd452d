-- ===== src/Engine/Conflict.antt =====
-- crates/cloud_sync_daemon/src/engine/conflict.rs: the strategies.
pub mod Registry
pub mod Manager
use cloud_sync_lib.Base.{ℕ, Bool, ltb, if◌then◌else◌, ◌++◌}
use cloud_sync_lib.Base.Text.{Text, codes}
use cloud_sync_lib.Storage.Policy.{
  ConflictPolicy, rename_local, rename_remote, keep_newer, keep_local, keep_remote, manual,
}

pub data ConflictResolutionAction : Type 0 where
  upload_local download_remote skip : ConflictResolutionAction
  rename_local_and_download_remote : Text → ConflictResolutionAction
  rename_remote_and_upload_local : Text → ConflictResolutionAction

-- The implementors of `ConflictResolver`. A custom hook delegates to its fallback, whatever the
-- hook's path.
pub data ConflictResolver : Type 0 where
  rename_local_strategy rename_remote_strategy keep_newer_strategy : ConflictResolver
  keep_local_strategy keep_remote_strategy manual_strategy : ConflictResolver
  custom_hook_strategy : Text → ConflictResolver → ConflictResolver

unfoldable pub policy : ConflictResolver → ConflictPolicy
policy rename_local_strategy = rename_local
policy rename_remote_strategy = rename_remote
policy keep_newer_strategy = keep_newer
policy keep_local_strategy = keep_local
policy keep_remote_strategy = keep_remote
policy manual_strategy = manual
policy (custom_hook_strategy hook fallback) = policy fallback

-- The names by which `create_conflict_resolver` looks a policy up.
unfoldable pub policy_name : ConflictPolicy → Text
policy_name rename_local = codes "rename-local"
policy_name rename_remote = codes "rename-remote"
policy_name keep_newer = codes "keep-newer"
policy_name keep_local = codes "keep-local"
policy_name keep_remote = codes "keep-remote"
policy_name manual = codes "manual"

unfoldable pub resolve : ConflictResolver → Text → ℕ → ℕ → ConflictResolutionAction
resolve rename_local_strategy p lm rm =
    rename_local_and_download_remote (p ++ codes ".local-conflict")
resolve rename_remote_strategy p lm rm =
    rename_remote_and_upload_local (p ++ codes ".remote-conflict")
resolve keep_newer_strategy p lm rm = if ltb rm lm then upload_local else download_remote
resolve keep_local_strategy p lm rm = upload_local
resolve keep_remote_strategy p lm rm = download_remote
resolve manual_strategy p lm rm = skip
resolve (custom_hook_strategy hook fallback) p lm rm = resolve fallback p lm rm
