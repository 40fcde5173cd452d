-- ===== src/Client/Bypass.antt =====
-- Which calls of a client of crates/cloud_sync_lib/src/client.rs go through its layers.
use cloud_sync_lib.Client.{with_layer}
use cloud_sync_lib.Base.{ℕ, ◌≡◌, refl, ap, ◌∙◌, Bool, true, false, Option, none, some}
use cloud_sync_lib.Base.Text.{Text}
use cloud_sync_lib.Storage.Errors.{Foreign, StorageError, Result, ok}
use cloud_sync_lib.Layers.Breaker.{CircuitBreakerConfig}
use cloud_sync_lib.Layers.Retry.{RetryConfig}
use cloud_sync_lib.Providers.Backend.{Backend}
use cloud_sync_lib.Client.{
  circuit_breaker_layer, retry_layer, rate_limit_layer, metrics_layer, logging_layer, ServerSide,
  Served, Layer, CloudSyncBuilder, layered, build, client_rename, client_copy, with_breaker,
  with_retries, with_rates, with_if, finished, chosen, rename_by, copy_by,
}

module _ {F : Foreign} {W Session Json : Type 0}
    (create_backend : Text → Json → Text → Result (StorageError F) (Served F W Session))
    (intercept : Layer → Backend F W Session → Backend F W Session) where
  passed-server_side :
      (l : Layer) (b : Served F W Session)
      → (with_layer create_backend intercept l b).server_side ≡ b.server_side
  unfolding with_layer
  passed-server_side (circuit_breaker_layer c) b = refl
  passed-server_side (retry_layer c) b = refl
  passed-server_side (rate_limit_layer up down) b = refl
  passed-server_side metrics_layer b = refl
  passed-server_side logging_layer b = refl

  with_breaker-server_side :
      (o : Option CircuitBreakerConfig) (b : Served F W Session)
      → (with_breaker create_backend intercept o b).server_side ≡ b.server_side
  with_breaker-server_side none b = refl
  with_breaker-server_side (some c) b = passed-server_side _ b

  with_retries-server_side :
      (o : Option RetryConfig) (b : Served F W Session)
      → (with_retries create_backend intercept o b).server_side ≡ b.server_side
  with_retries-server_side none b = refl
  with_retries-server_side (some c) b = passed-server_side _ b

  with_rates-server_side :
      (o : Option (ℕ × ℕ)) (b : Served F W Session)
      → (with_rates create_backend intercept o b).server_side ≡ b.server_side
  with_rates-server_side none b = refl
  with_rates-server_side (some r) b = passed-server_side _ b

  with_if-server_side :
      (on : Bool) (l : Layer) (b : Served F W Session)
      → (with_if create_backend intercept on l b).server_side ≡ b.server_side
  with_if-server_side true l b = passed-server_side l b
  with_if-server_side false l b = refl

  layered-server_side :
      (c : CloudSyncBuilder F W Session Json) (b : Served F W Session)
      → (layered create_backend intercept c b).server_side ≡ b.server_side
  unfolding layered
  layered-server_side c b =
      with_if-server_side c.enable_logging _ _
      ∙ with_if-server_side c.enable_metrics _ _
      ∙ with_rates-server_side c.rate_limits _
      ∙ with_retries-server_side c.retry _
      ∙ with_breaker-server_side c.circuit_breaker b

  -- A client that is built over a backend with server-side operations renames and copies by these
  -- operations themselves, whatever layers were asked for and however they treat calls: no retry, no
  -- circuit breaker and no metrics take part.
  pub client_rename_bypasses :
      (c : CloudSyncBuilder F W Session Json) (b : Served F W Session) (ops : ServerSide F W)
      → c.backend ≡ some b
      → b.server_side ≡ some ops
      → (client : Served F W Session) × (build create_backend intercept c ≡ ok client)
        × ((from to : Text) (w : W) → client_rename client from to w ≡ ops.rename from to w)
        × ((from to : Text) (w : W) → client_copy client from to w ≡ ops.copy from to w)
  unfolding build client_rename client_copy
  client_rename_bypasses c b ops e h =
      let s = layered-server_side c b ∙ h in
      (
        layered create_backend intercept c b,
        ap
            (λ o.
              finished create_backend intercept c
                (chosen create_backend intercept o c.provider_name c.provider_config c.sim_root))
            e,
        λ from to w.
            ap (λ o. rename_by o (layered create_backend intercept c b).backend from to w) s,
        λ from to w. ap (λ o. copy_by o (layered create_backend intercept c b).backend from to w) s,
      )
