-- ===== src/Providers/Wrapped/Moves.antt =====
-- What the planner of crates/cloud_sync_daemon/src/engine/planner.rs may plan for a backend that
-- `build_wrapped` of crates/cloud_sync_lib/src/providers/mod.rs made.
use cloud_sync_lib.Base.{Bool, ◌≡◌, ◌∙◌, refl, true, false, Option, none, some, List, arith}
use cloud_sync_lib.Base.Lists.{All, All-mono}
use cloud_sync_lib.Base.Text.{Text}
use cloud_sync_lib.Storage.Capabilities.{no_capabilities, server_side_move, has_capability}
use cloud_sync_lib.Storage.Errors.{Foreign, StorageError}
use cloud_sync_lib.Engine.Plan
use cloud_sync_lib.Engine.Plan.{SyncAction, SyncPlan}
use cloud_sync_lib.Engine.Planner.{PlanInput, plan, upload_of, download_of}
use cloud_sync_lib.Engine.Scanner.{ScannedItem}
use cloud_sync_lib.Engine.Planner.Outcome.{reconciled}
use cloud_sync_lib.Engine.Planner.Evidence.{
  IsEvident, local_new, local_edit, remote_restored, remote_new, remote_edit, locally_deleted,
  remotely_deleted, both_edited, both_added, renamed,
}
use cloud_sync_lib.Engine.Planner.Justified.{plan-IsEvident}
use cloud_sync_lib.Providers.Backend.{Backend}
use cloud_sync_lib.Providers.Fallback.{Routed}
use cloud_sync_lib.Providers.Wrapped.{Staging, build_wrapped, encrypted_backend, rate_limiting}

abbrev pub is_move : SyncAction → Bool
is_move (Plan.server_side_move source target) = true
is_move _ = false

reconciled_no_move :
    (i : PlanInput) (p : Text) (l r : ScannedItem) → is_move (reconciled i p l r) ≡ false
unfolding reconciled
reconciled_no_move i p l r = ground arith

incapable : has_capability no_capabilities server_side_move ≡ false
unfolding has_capability
incapable = refl

evident_no_move :
    (i : PlanInput) (a : SyncAction)
    → i.capabilities ≡ no_capabilities
    → IsEvident i a
    → is_move a ≡ false
unfolding upload_of download_of
evident_no_move i a none' (local_new p n e) = rw e refl
evident_no_move i a none' (local_edit p l r s hl hr hs lc rc e) = rw e refl
evident_no_move i a none' (remote_restored p l s hl hr hs b e) = rw e refl
evident_no_move i a none' (remote_new p r hl hr hs b e) = rw e refl
evident_no_move i a none' (remote_edit p l r s hl hr hs lc rc b e) = rw e refl
evident_no_move i a none' (locally_deleted p n e) = rw e refl
evident_no_move i a none' (remotely_deleted p l s hl hr hs b d e) = rw e refl
evident_no_move i a none' (both_edited p l r s hl hr hs lc rc e) = rw e (reconciled_no_move i p l r)
evident_no_move i a none' (both_added p l r hl hr hs e) = rw e (reconciled_no_move i p l r)
evident_no_move i a none' (renamed p q n m can e) = cc (incapable, none', can)

module _ {F : Foreign} {W Session : Type 0} (show : StorageError F → Text)
    (inner local_sim : Backend F W Session) (up down : Option (Text → Routed W → Routed W))
    (password : Option (Staging F (Routed W))) where
  build_wrapped-no_capabilities :
      (password : Option (Staging F (Routed W)))
      → (build_wrapped show inner local_sim up down password).capabilities ≡ no_capabilities
  unfolding build_wrapped encrypted_backend rate_limiting
  build_wrapped-no_capabilities none = refl
  build_wrapped-no_capabilities (some staging) = refl

  -- Whatever a provider is capable of, no plan for it, once it is wrapped, holds a server-side move:
  -- the limiter around it says that it has no capabilities.
  pub wrapped_never_moves :
      (i : PlanInput) (ps : List Text) (p : SyncPlan)
      → i.capabilities ≡ (build_wrapped show inner local_sim up down password).capabilities
      → plan i ps ≡ some p
      → All (λ a. is_move a ≡ false) p.actions
  wrapped_never_moves i ps p given e =
      All-mono _ _ p.actions
        (λ a. evident_no_move i a (given ∙ build_wrapped-no_capabilities password))
        (plan-IsEvident i ps p e)
