-- ===== src/Layers/Metrics/Examples.antt =====
-- An upload that works, a rename and a listing that fails.
use cloud_sync_lib.Base.{ℕ, ◌+◌, ◌≡◌, true, false, none, some, List, [], ◌∷◌, arith}
use cloud_sync_lib.Base.Text.{codes}
use cloud_sync_lib.Storage.Capabilities.{no_capabilities}
use cloud_sync_lib.Storage.Errors.{Foreign, conflict, ok, err}
use cloud_sync_lib.Providers.Backend.{Backend, Call}
use cloud_sync_lib.Layers.Metrics.{
  no_metrics, metrics_backend, Operation, upload, rename, list, perform_all,
}
use cloud_sync_lib.Layers.Metrics.Observe.{counted_calls, total, metrics_observe}

abbrev foreign : Foreign
foreign = record {
  IoError = Unit;
  HttpError = Unit;
  is_connect = λ e. true;
  is_timeout = λ e. false;
  is_request = λ e. false;
}

abbrev refused : {A : Type 0} → Call foreign ℕ A
refused w = (err (conflict (codes "refused")), w)

abbrev half : Backend foreign ℕ (Unit {0})
half = record {
  capabilities = no_capabilities;
  upload = λ l r w. (ok tt, w + 1);
  download = λ r l. refused;
  delete = λ r. refused;
  list = λ r. refused;
  create_folder = λ r. refused;
  rename = λ a b. refused;
  copy = λ a b. refused;
  start_resumable_upload = λ l r n. refused;
  get_latest_cursor = refused;
  fetch_changes = λ c. refused;
  compute_local_checksum = λ l. refused;
  is_simulated = λ w. true;
  simulation_reason = λ w. none;
}

abbrev calls : List Operation
calls = upload (codes "/a") (codes "a") ∷ rename (codes "a") (codes "b") ∷ list [] ∷ []

metrics_observe_example :
    let seen =
      perform_all
        (metrics_backend (λ l w. some 5) half)
        calls
        (record { metrics = no_metrics; inner = 0 }) in
    (seen.0 ≡ (perform_all half calls 0).0)
    × (seen.1.inner ≡ (perform_all half calls 0).1)
    × (total seen.1.metrics ≡ counted_calls calls)
metrics_observe_example = metrics_observe (λ l w. some 5) half calls 0 (omega arith)
