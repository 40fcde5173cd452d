-- ===== src/Providers/Fallback/Expired.antt =====
-- What a scan over the wrapper of crates/cloud_sync_lib/src/providers/fallback.rs yields when the
-- provider refuses the credentials, and what the planner does with it.
use cloud_sync_lib.Base.{ℕ, suc, ◌≡◌, true, some, List, [], refl}
use cloud_sync_lib.Base.Text.{Text, path_join}
use cloud_sync_lib.Base.Lists.{In}
use cloud_sync_lib.Base.Dict.{Dict, get}
use cloud_sync_lib.Storage.Errors.{Foreign, StorageError, Result, ok, err, is_auth}
use cloud_sync_lib.Storage.Policy.{two_way}
use cloud_sync_lib.Storage.State.{FileState}
use cloud_sync_lib.Engine.Filter.{FileFilter}
use cloud_sync_lib.Engine.Plan
use cloud_sync_lib.Engine.Plan.{SyncPlan}
use cloud_sync_lib.Engine.Scanner.{
  ScannedItem, StorageItem, scan_remote, scan_loop, after_list, scan_items,
}
use cloud_sync_lib.Engine.Planner.{PlanInput, plan}
use cloud_sync_lib.Engine.Planner.Finish.{plan_total}
use cloud_sync_lib.Engine.Planner.Safety.{plan-deletes_edited}
use cloud_sync_lib.Providers.Backend.{Backend}
use cloud_sync_lib.Providers.Fallback.{Routed, list}

scan_remote-empty_root :
    {F : Foreign} (ls : Text → Result (StorageError F) (List StorageItem)) (fuel : ℕ)
    (filter : FileFilter)
    → ls [] ≡ ok []
    → scan_remote ls (suc (suc fuel)) filter ≡ some (ok [])
unfolding scan_remote scan_loop after_list scan_items
scan_remote-empty_root ls fuel filter e = rw (e, scan_remote, scan_loop) refl

module _ {F : Foreign} {W Session : Type 0} (show : StorageError F → Text)
    (provider local_sim : Backend F W Session) where
  -- The listings that a scan sees, in the state the scan starts from.
  abbrev pub listing : Routed W → Text → Result (StorageError F) (List StorageItem)
  listing g path = (list show (some provider) local_sim path g).0

  listing-empty :
      (g : Routed W) (e : StorageError F) (w1 w2 : W)
      → provider.list [] g.world ≡ (err e, w1)
      → is_auth e ≡ true
      → local_sim.list [] w1 ≡ (ok [], w2)
      → listing g [] ≡ ok []
  unfolding list
  listing-empty g e w1 w2 refused auth empty = rw (refused, listing, list) (rw (auth, empty) refl)

  -- Let the provider refuse the credentials when the root is listed, while the simulation's
  -- directory is empty. The scan of the remote side then succeeds, with some tree, and the plan made
  -- from that tree in the two-way mode exists and deletes every walked path that the watched
  -- directory and the catalog have.
  pub expired_login_deletes :
      (g : Routed W) (e : StorageError F) (w1 w2 : W) (fuel : ℕ) (filter : FileFilter)
      (i : PlanInput) (q : Text) (local : ScannedItem) (base : FileState) (ps : List Text)
      → provider.list [] g.world ≡ (err e, w1)
      → is_auth e ≡ true
      → local_sim.list [] w1 ≡ (ok [], w2)
      → i.policy.mode ≡ two_way
      → get q i.local_tree ≡ some local
      → get q i.base_state.files ≡ some base
      → In q ps
      → (tree : Dict ScannedItem) × (scan_remote (listing g) (suc (suc fuel)) filter
          ≡ some (ok tree))
        × (p : SyncPlan) × (plan (record i { remote_tree = tree }) ps ≡ some p)
        × In (Plan.delete_local (path_join i.watch_dir q)) p.actions
  unfolding get
  expired_login_deletes g e w1 w2 fuel filter i q local base ps refused auth empty two hl hs m =
      let i' : PlanInput = record i { remote_tree = [] } in
      let (p, planned) = plan_total i' ps in
      (
        [],
        scan_remote-empty_root (listing g) fuel filter (listing-empty g e w1 w2 refused auth empty),
        p,
        planned,
        plan-deletes_edited i' q local base ps p two hl refl hs m planned,
      )
