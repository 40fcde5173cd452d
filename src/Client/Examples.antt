-- ===== src/Client/Examples.antt =====
-- A client over a backend that refuses every call and renames on its server.
use cloud_sync_lib.Base.{ℕ, ◌≡◌, refl, some}
use cloud_sync_lib.Base.Text.{Text}
use cloud_sync_lib.Storage.Errors.{StorageError, Result, ok, err}
use cloud_sync_lib.Providers.Backend.{Backend}
use cloud_sync_lib.Providers.Samples.{foreign, provider, expired}
use cloud_sync_lib.Client.{
  Served, Layer, CloudSyncBuilder, new_builder, with_backend, with_retry, with_metrics, build,
  client_rename, client_copy,
}
use cloud_sync_lib.Client.Bypass.{client_rename_bypasses}

abbrev served : Served foreign ℕ (Unit {0})
served = record {
  backend = provider;
  server_side = some (record { copy = λ from to w. (ok tt, w); rename = λ from to w. (ok tt, w) });
}

abbrev registry : Text → Text → Text → Result (StorageError foreign) (Served foreign ℕ (Unit {0}))
registry name config root = err expired

abbrev passes : Layer → Backend foreign ℕ (Unit {0}) → Backend foreign ℕ (Unit {0})
passes l b = b

unfoldable asked : CloudSyncBuilder foreign ℕ (Unit {0}) Text
asked = with_metrics (with_retry 3 500 30000 (with_backend served new_builder))

client_rename_bypasses_example :
    (client : Served foreign ℕ (Unit {0})) × (build registry passes asked ≡ ok client)
    × ((from to : Text) (w : ℕ) → client_rename client from to w ≡ (ok tt, w))
    × ((from to : Text) (w : ℕ) → client_copy client from to w ≡ (ok tt, w))
unfolding asked with_metrics with_retry with_backend new_builder
client_rename_bypasses_example =
    client_rename_bypasses registry passes asked served
      (record { copy = λ from to w. (ok tt, w); rename = λ from to w. (ok tt, w) }) refl refl
