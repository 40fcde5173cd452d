-- ===== src/Providers/Wrapped/Examples.antt =====
-- A provider that can do all on the server, wrapped with a password and without limiters.
use cloud_sync_lib.Base.Text.{path_join}
use cloud_sync_lib.Storage.Policy.{sync_deletions}
use cloud_sync_lib.Base.Dict.{get}
use cloud_sync_lib.Base.{◌≡◌, refl, false, none, some, [], ◌∷◌, ℕ}
use cloud_sync_lib.Base.Lists.{All}
use cloud_sync_lib.Base.Text.{codes}
use cloud_sync_lib.Storage.Capabilities.{server_side_move}
use cloud_sync_lib.Storage.Errors.{ok, err}
use cloud_sync_lib.Engine.Plan
use cloud_sync_lib.Engine.Plan.{SyncPlan, new_plan, add_action}
use cloud_sync_lib.Engine.Planner.{PlanInput, plan}
use cloud_sync_lib.Providers.Samples.{foreign, expired, provider, simulation, show, item, input}
use cloud_sync_lib.Providers.Backend.{Backend}
use cloud_sync_lib.Providers.Fallback.{Routed}
use cloud_sync_lib.Providers.Wrapped.{Staging, build_wrapped}
use cloud_sync_lib.Providers.Wrapped.Moves.{is_move, wrapped_never_moves}

abbrev capable : Backend foreign ℕ (Unit {0})
capable = record provider { capabilities = server_side_move }

abbrev staging : Staging foreign (Routed ℕ)
staging = record {
  seal_to_temp = λ l w. (err expired, w);
  new_temp = λ w. (ok (codes "/tmp/a"), w);
  open_vault = λ temp l w. (err expired, w);
  remove_file = λ temp w. w;
}

-- The file a is now called b.
abbrev renamed_input : PlanInput
renamed_input = record input {
  local_tree = (codes "b", item) ∷ [];
  remote_tree = (codes "a", item) ∷ [];
}

abbrev replaced : SyncPlan
replaced =
    add_action (add_action (new_plan (codes "box") 100) (Plan.delete_remote (codes "a")))
      (Plan.upload (codes "/w/b") (codes "b") 3)

wrapped_never_moves_example : All (λ a. is_move a ≡ false) replaced.actions
unfolding build_wrapped plan get sync_deletions path_join
wrapped_never_moves_example =
    wrapped_never_moves show capable simulation none none (some staging) renamed_input
      (codes "a" ∷ codes "b" ∷ []) replaced refl refl
