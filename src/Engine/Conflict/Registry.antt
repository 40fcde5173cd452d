-- ===== src/Engine/Conflict/Registry.antt =====
-- `DynamicConflictRegistry` and `create_conflict_resolver` of
-- crates/cloud_sync_daemon/src/engine/conflict.rs. A factory is the resolver that it makes.
use cloud_sync_lib.Base.{ℕ, ◌+◌, ◌&&◌, Option, none, some, [], map, leb, if◌then◌else◌}
use cloud_sync_lib.Base.Text.{Text, codes}
use cloud_sync_lib.Base.Dict.{Dict, get, insert}
use cloud_sync_lib.Storage.Policy.{
  ConflictPolicy, rename_local, rename_remote, keep_newer, keep_local, keep_remote, manual,
}
use cloud_sync_lib.Engine.Conflict.{
  ConflictResolver, rename_local_strategy, rename_remote_strategy, keep_newer_strategy,
  keep_local_strategy, keep_remote_strategy, manual_strategy, policy_name,
}

abbrev lower : ℕ → ℕ
lower c = if leb b'A' c && leb c b'Z' then c + 32 else c

-- `name.to_lowercase()` on the ASCII names that are registered.
unfoldable pub to_lowercase : Text → Text
to_lowercase s = map lower s

unfoldable pub register : Text → ConflictResolver → Dict ConflictResolver → Dict ConflictResolver
unfolding insert to_lowercase
register name factory strategies = insert (to_lowercase name) factory strategies

unfoldable pub create_resolver : Text → Dict ConflictResolver → Option ConflictResolver
unfolding get to_lowercase
create_resolver name strategies = get (to_lowercase name) strategies

unfoldable pub with_defaults : Dict ConflictResolver
unfolding register
with_defaults = register (codes "manual") manual_strategy (
    register (codes "keep-remote") keep_remote_strategy (
      register (codes "keep-local") keep_local_strategy (
        register (codes "keep-newer") keep_newer_strategy (
          register (codes "rename-remote") rename_remote_strategy
            (register (codes "rename-local") rename_local_strategy [])))))

-- The strategy that `create_conflict_resolver` falls back to.
unfoldable pub builtin_resolver : ConflictPolicy → ConflictResolver
builtin_resolver rename_local = rename_local_strategy
builtin_resolver rename_remote = rename_remote_strategy
builtin_resolver keep_newer = keep_newer_strategy
builtin_resolver keep_local = keep_local_strategy
builtin_resolver keep_remote = keep_remote_strategy
builtin_resolver manual = manual_strategy

-- The global registry is an argument: any part of the process may register more.
unfoldable pub create_conflict_resolver : Dict ConflictResolver → ConflictPolicy → ConflictResolver
unfolding create_resolver policy_name builtin_resolver
create_conflict_resolver registry p = elim (create_resolver (policy_name p) registry) [
  | some res ↦ res
  | none ↦ builtin_resolver p
]
