-- ===== src/Providers/Fallback/Examples.antt =====
-- A provider that refuses the credentials, beside a simulation that has no files.
use cloud_sync_lib.Providers.Samples.{
  expired, provider, simulation, show, start, everything, item, known, input,
}
use cloud_sync_lib.Base.{◌≡◌, refl, inl, some, [], ◌∷◌}
use cloud_sync_lib.Base.Lists.{In}
use cloud_sync_lib.Base.Dict.{Dict, get}
use cloud_sync_lib.Base.Text.{codes, path_join, text_eq}
use cloud_sync_lib.Storage.Errors.{ok, is_auth}
use cloud_sync_lib.Engine.Plan
use cloud_sync_lib.Engine.Plan.{SyncPlan}
use cloud_sync_lib.Engine.Scanner.{ScannedItem, scan_remote}
use cloud_sync_lib.Engine.Planner.{plan}
use cloud_sync_lib.Providers.Fallback.Expired.{listing, expired_login_deletes}

expired_login_deletes_example :
    (tree : Dict ScannedItem) × (scan_remote (listing show provider simulation start) 2 everything
      ≡ some (ok tree))
    × (p : SyncPlan) × (plan (record input { remote_tree = tree }) (codes "a" ∷ []) ≡ some p)
    × In (Plan.delete_local (path_join (codes "/w") (codes "a"))) p.actions
unfolding is_auth get text_eq
expired_login_deletes_example =
    expired_login_deletes show provider simulation start expired 0 0 0 everything input (codes "a")
      item known (codes "a" ∷ []) refl refl refl refl refl refl (inl refl)
