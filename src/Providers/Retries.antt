-- ===== src/Providers/Retries.antt =====
-- The retry helper of crates/cloud_sync_lib/src/providers/utils.rs. The sleeps of a call are listed in
-- their order. `http_status` is the status of an error of the HTTP client, if it has one; `scaled` is
-- the product of a delay and the configured multiplier, computed in floating point, which panics when
-- it is no `Duration`.
pub mod Loop
pub mod Examples
use cloud_sync_lib.Base.{
  ℕ, zero, suc, ◌+◌, ◌-◌, ◌*◌, ◌%◌, ◌^◌, Bool, true, false, ◌||◌, ◌&&◌, Option, none, some, List,
  [], ◌∷◌, ◌==◌, ltb, leb, if◌then◌else◌, unwrap_or,
}
use cloud_sync_lib.Base.Text.{Text, codes, contains}
use cloud_sync_lib.Storage.Errors.{
  Foreign, StorageError, rate_limit, provider, reqwest, connection_failed, Result, ok, err, err,
  retry_after,
}
use cloud_sync_lib.Layers.Retry.{returned, panicked, stuck, Run}

pub record HelperConfig : Type 0 where
  pub max_attempts : ℕ
  pub initial_delay : ℕ

abbrev pub is_gateway : ℕ → Bool
is_gateway status = status == 429 || status == 502 || status == 503 || status == 504

-- `TOO_MANY_REQUESTS`, or a status from 500 to 599
abbrev pub is_server_status : Option ℕ → Bool
is_server_status none = false
is_server_status (some status) = status == 429 || leb 500 status && ltb status 600

module _ {F : Foreign} (http_status : F.HttpError → Option ℕ) where
  unfoldable pub is_transient_error : StorageError F → Bool
  unfolding contains
  is_transient_error (rate_limit m d) = true
  is_transient_error (reqwest e) =
      if F.is_timeout e || F.is_connect e then true else is_server_status (http_status e)
  is_transient_error (connection_failed m) = true
  is_transient_error (provider m (some status)) = is_gateway status
  is_transient_error (provider m none) =
      contains m (codes "429")
      || contains m (codes "503")
      || contains m (codes "504")
      || contains m (codes "502")
  is_transient_error _ = false

  module _ {A W : Type 0} (f : W → Result (StorageError F) A × W) (c : HelperConfig)
      (scaled : ℕ → Option ℕ) where
    -- `max_attempts - 1` on a `usize`
    abbrev pub last_attempt : ℕ
    last_attempt = (c.max_attempts + (2 ^ 64 - 1)) % 2 ^ 64

    abbrev pub sleep_duration : StorageError F → ℕ → ℕ
    sleep_duration e delay = unwrap_or (retry_after e) delay

    -- The sleep, then the next delay, then the loop again.
    abbrev pub sleep_and : ℕ → Option ℕ → W → (ℕ → Run F A W) → Run F A W
    sleep_and d none w next = record { ended = panicked; sleeps = d ∷ []; world = w }
    sleep_and d (some delay) w next = record (next delay) { sleeps = d ∷ (next delay).sleeps }

    abbrev pub after_attempt : Result (StorageError F) A → ℕ → ℕ → W → (ℕ → Run F A W) → Run F A W
    after_attempt (ok v) attempt delay w next = record {
      ended = returned (ok v);
      sleeps = [];
      world = w;
    }
    after_attempt (err e) attempt delay w next =
        if is_transient_error e && ltb attempt last_attempt
        then sleep_and (sleep_duration e delay) (scaled delay) w next
        else record { ended = returned (err e); sleeps = []; world = w }

    unfoldable pub attempts_loop : ℕ → ℕ → ℕ → W → Run F A W
    unfolding is_transient_error retry_after
    attempts_loop zero attempt delay w = record { ended = stuck; sleeps = []; world = w }
    attempts_loop (suc fuel) attempt delay w =
        let (r, w') = f w in
        after_attempt r attempt delay w' (λ d. attempts_loop fuel (attempt + 1) d w')

    unfoldable pub retry_helper : ℕ → W → Run F A W
    unfolding attempts_loop
    retry_helper fuel w = attempts_loop fuel 0 c.initial_delay w
