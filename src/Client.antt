-- ===== src/Client.antt =====
-- crates/cloud_sync_lib/src/client.rs: the builder of a client, with the layers of
-- crates/cloud_sync_lib/src/layers/mod.rs around its backend, and the client. How a layer intercepts
-- the calls of a backend is `intercept`. The registry of providers is an argument.
pub mod Bypass
pub mod Examples
use cloud_sync_lib.Base.{
  ℕ, Bool, true, false, Option, none, some, List, [], ◌∷◌, ◌++◌, ltb, if◌then◌else◌,
}
use cloud_sync_lib.Base.Text.{Text, codes}
use cloud_sync_lib.Storage.Errors.{Foreign, StorageError, provider, Result, ok, err}
use cloud_sync_lib.Engine.Scanner.{StorageItem}
use cloud_sync_lib.Providers.Backend.{Backend, Call}
use cloud_sync_lib.Layers.Breaker.{CircuitBreakerConfig}
use cloud_sync_lib.Layers.Retry.{RetryConfig}

-- `ServerSideOperations`
pub record ServerSide (F : Foreign) (W : Type 0) : Type 0 where
  pub copy : Text → Text → Call F W (Unit {0})
  pub rename : Text → Text → Call F W (Unit {0})

-- A backend with what `as_server_side_ops` gives.
pub record Served (F : Foreign) (W Session : Type 0) : Type 0 where
  pub backend : Backend F W Session
  pub server_side : Option (ServerSide F W)

-- The layers with their settings; a bucket has a rate.
pub data Layer : Type 0 where
  circuit_breaker_layer : CircuitBreakerConfig → Layer
  retry_layer : RetryConfig → Layer
  rate_limit_layer : Option ℕ → Option ℕ → Layer
  metrics_layer logging_layer : Layer

pub record CloudSyncBuilder (F : Foreign) (W Session Json : Type 0) : Type 0 where
  pub backend : Option (Served F W Session)
  pub provider_name : Option Text
  pub provider_config : Option Json
  pub sim_root : Option Text
  pub retry : Option RetryConfig
  pub circuit_breaker : Option CircuitBreakerConfig
  pub rate_limits : Option (ℕ × ℕ)
  pub enable_logging : Bool
  pub enable_metrics : Bool

module _ {F : Foreign} {W : Type 0} where
  -- `as_server_side_ops` of the backend of each layer, from that of the backend that it wraps.
  unfoldable pub breaker_server_side : Option (ServerSide F W) → Option (ServerSide F W)
  breaker_server_side inner = inner

  unfoldable pub retry_server_side : Option (ServerSide F W) → Option (ServerSide F W)
  retry_server_side inner = inner

  unfoldable pub rate_limit_server_side : Option (ServerSide F W) → Option (ServerSide F W)
  rate_limit_server_side inner = inner

  unfoldable pub metrics_server_side : Option (ServerSide F W) → Option (ServerSide F W)
  metrics_server_side inner = inner

  unfoldable pub logging_server_side : Option (ServerSide F W) → Option (ServerSide F W)
  logging_server_side inner = inner

  unfoldable pub layer_server_side : Layer → Option (ServerSide F W) → Option (ServerSide F W)
  unfolding breaker_server_side retry_server_side rate_limit_server_side metrics_server_side
      logging_server_side
  layer_server_side (circuit_breaker_layer c) inner = breaker_server_side inner
  layer_server_side (retry_layer c) inner = retry_server_side inner
  layer_server_side (rate_limit_layer up down) inner = rate_limit_server_side inner
  layer_server_side metrics_layer inner = metrics_server_side inner
  layer_server_side logging_layer inner = logging_server_side inner

module _ {F : Foreign} {W Session Json : Type 0} where
  unfoldable pub new_builder : CloudSyncBuilder F W Session Json
  new_builder = record {
    backend = none;
    provider_name = none;
    provider_config = none;
    sim_root = none;
    retry = none;
    circuit_breaker = none;
    rate_limits = none;
    enable_logging = false;
    enable_metrics = false;
  }

  unfoldable pub with_backend :
      Served F W Session → CloudSyncBuilder F W Session Json → CloudSyncBuilder F W Session Json
  with_backend b c = record c { backend = some b }

  unfoldable pub with_provider :
      Text → Json → Text → CloudSyncBuilder F W Session Json → CloudSyncBuilder F W Session Json
  with_provider name config root c = record c {
    provider_name = some name;
    provider_config = some config;
    sim_root = some root;
  }

  unfoldable pub with_retry :
      ℕ → ℕ → ℕ → CloudSyncBuilder F W Session Json → CloudSyncBuilder F W Session Json
  with_retry max_attempts base_delay max_delay c = record c {
    retry =
        some
          (record { max_attempts = max_attempts; base_delay = base_delay; max_delay = max_delay });
  }

  unfoldable pub with_circuit_breaker :
      ℕ → ℕ → CloudSyncBuilder F W Session Json → CloudSyncBuilder F W Session Json
  with_circuit_breaker failure_threshold recovery_timeout c = record c {
    circuit_breaker = some (record {
      failure_threshold = failure_threshold;
      recovery_timeout = recovery_timeout;
      probe_success_threshold = 2;
    });
  }

  unfoldable pub with_rate_limits :
      ℕ → ℕ → CloudSyncBuilder F W Session Json → CloudSyncBuilder F W Session Json
  with_rate_limits up down c = record c { rate_limits = some (up, down) }

  unfoldable pub with_logging :
      CloudSyncBuilder F W Session Json → CloudSyncBuilder F W Session Json
  with_logging c = record c { enable_logging = true }

  unfoldable pub with_metrics :
      CloudSyncBuilder F W Session Json → CloudSyncBuilder F W Session Json
  with_metrics c = record c { enable_metrics = true }

  module _ (create_backend : Text → Json → Text → Result (StorageError F) (Served F W Session))
      (intercept : Layer → Backend F W Session → Backend F W Session) where
    unfoldable pub with_layer : Layer → Served F W Session → Served F W Session
    unfolding layer_server_side
    with_layer l b = record {
      backend = intercept l b.backend;
      server_side = layer_server_side l b.server_side;
    }

    abbrev pub bucket : ℕ → Option ℕ
    bucket rate = if ltb 0 rate then some rate else none

    abbrev pub with_breaker : Option CircuitBreakerConfig → Served F W Session → Served F W Session
    with_breaker none b = b
    with_breaker (some c) b = with_layer (circuit_breaker_layer c) b

    abbrev pub with_retries : Option RetryConfig → Served F W Session → Served F W Session
    with_retries none b = b
    with_retries (some c) b = with_layer (retry_layer c) b

    abbrev pub with_rates : Option (ℕ × ℕ) → Served F W Session → Served F W Session
    with_rates none b = b
    with_rates (some (up, down)) b = with_layer (rate_limit_layer (bucket up) (bucket down)) b

    abbrev pub with_if : Bool → Layer → Served F W Session → Served F W Session
    with_if on l b = if on then with_layer l b else b

    -- The layers from the inside out.
    unfoldable pub layered :
        CloudSyncBuilder F W Session Json → Served F W Session → Served F W Session
    unfolding with_layer
    layered c b = with_if c.enable_logging logging_layer (
        with_if c.enable_metrics metrics_layer
          (with_rates c.rate_limits (with_retries c.retry (with_breaker c.circuit_breaker b))))

    abbrev pub nothing_provided : Result (StorageError F) (Served F W Session)
    nothing_provided =
        err (
          provider (codes "No backend or provider configuration provided to CloudSyncBuilder") none)

    abbrev pub chosen :
        Option (Served F W Session)
        → Option Text
        → Option Json
        → Option Text
        → Result (StorageError F) (Served F W Session)
    chosen (some b) name config root = ok b
    chosen none (some name) (some config) (some root) = create_backend name config root
    chosen none none config root = nothing_provided
    chosen none (some name) none root = nothing_provided
    chosen none (some name) (some config) none = nothing_provided

    abbrev pub finished :
        CloudSyncBuilder F W Session Json
        → Result (StorageError F) (Served F W Session)
        → Result (StorageError F) (Served F W Session)
    finished c (err e) = err e
    finished c (ok b) = ok (layered c b)

    unfoldable pub build :
        CloudSyncBuilder F W Session Json → Result (StorageError F) (Served F W Session)
    unfolding layered
    build c = finished c (chosen c.backend c.provider_name c.provider_config c.sim_root)

-- The operations of a client that do more than pass a call on.
module _ {F : Foreign} {W Session : Type 0} where
  abbrev pub rename_by :
      Option (ServerSide F W) → Backend F W Session → Text → Text → Call F W (Unit {0})
  rename_by (some ops) b = ops.rename
  rename_by none b = b.rename

  abbrev pub copy_by :
      Option (ServerSide F W) → Backend F W Session → Text → Text → Call F W (Unit {0})
  copy_by (some ops) b = ops.copy
  copy_by none b = b.copy

  unfoldable pub client_rename : Served F W Session → Text → Text → Call F W (Unit {0})
  client_rename client = rename_by client.server_side client.backend

  unfoldable pub client_copy : Served F W Session → Text → Text → Call F W (Unit {0})
  client_copy client = copy_by client.server_side client.backend
