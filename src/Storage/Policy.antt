-- ===== src/Storage/Policy.antt =====
-- `SyncMode`, `SyncPolicy` and `ConflictPolicy` of crates/cloud_sync_core/src/traits.rs.
use cloud_sync_lib.Base.{Bool, true, false}

pub data SyncMode : Type 0 where
  two_way one_way one_way_no_deletions : SyncMode

pub record SyncPolicy : Type 0 where
  pub mode : SyncMode

abbrev mode_deletes : SyncMode → Bool
mode_deletes two_way = true
mode_deletes one_way = true
mode_deletes one_way_no_deletions = false

abbrev mode_both : SyncMode → Bool
mode_both two_way = true
mode_both one_way = false
mode_both one_way_no_deletions = false

unfoldable pub sync_deletions : SyncPolicy → Bool
sync_deletions p = mode_deletes p.mode

unfoldable pub sync_both : SyncPolicy → Bool
sync_both p = mode_both p.mode

pub data ConflictPolicy : Type 0 where
  rename_local rename_remote keep_newer keep_local keep_remote manual : ConflictPolicy
