-- ===== src/Layers/Breaker/Examples.antt =====
-- The breaker with two failures and two probes, and a retry of a backend that fails twice.
use cloud_sync_lib.Base.{ℕ, suc, ◌-◌, ◌<◌, ◌≤◌, ◌≡◌, refl, true, false, List, [], ◌∷◌, arith}
use cloud_sync_lib.Base.Text.{Text, codes}
use cloud_sync_lib.Base.Lists.{length}
use cloud_sync_lib.Storage.Errors.{
  Foreign, StorageError, connection_failed, Result, ok, err, is_transient,
}
use cloud_sync_lib.Layers.Breaker.{
  CircuitBreakerConfig, half_open, opened, BreakerInternal, new_breaker, before_call, after_call,
  execute,
}
use cloud_sync_lib.Layers.Breaker.Events.{Event, begins, ends, run, IsConfig, Inv, run-Inv}
use cloud_sync_lib.Layers.Breaker.Calls.{repeated, PassesOn, FailsFast, failures-execute}
use cloud_sync_lib.Layers.Retry.{RetryConfig, execute_with_retry}
use cloud_sync_lib.Layers.Retry.Loop.{IsRetried, execute_with_retry-IsRetried}

abbrev foreign : Foreign
foreign = record {
  IoError = Unit;
  HttpError = Unit;
  is_connect = λ e. true;
  is_timeout = λ e. false;
  is_request = λ e. false;
}

abbrev config : CircuitBreakerConfig
config = record { failure_threshold = 2; recovery_timeout = 30; probe_success_threshold = 2 }

config-IsConfig : IsConfig config
config-IsConfig = record {
  some_failures = omega arith;
  failures_u32 = omega arith;
  some_probes = omega arith;
  probes_u32 = omega arith;
}

abbrev lost : StorageError foreign
lost = connection_failed (codes "lost")

-- Two failures trip the breaker; the call after the timeout is the first probe.
abbrev history : List (Event foreign)
history = begins 1 ∷ ends 2 (err lost) ∷ begins 3 ∷ ends 4 (err lost) ∷ begins 20 ∷ begins 50 ∷ []

run-Inv_example : Inv config (length history) (run config history new_breaker)
run-Inv_example = run-Inv config history config-IsConfig (omega arith)

history-half_open : (run config history new_breaker).state ≡ half_open
unfolding run new_breaker before_call after_call is_transient
history-half_open = refl

abbrev message : ℕ → Text
message remaining = codes "open"

abbrev tripped : BreakerInternal
tripped = record { state = opened 4; consecutive_failures = 2; consecutive_successes = 0 }

abbrev count_call : ℕ → Result (StorageError foreign) (Unit {0}) × ℕ
count_call w = (ok tt, suc w)

-- Two failures at the time 10 open the breaker; the call at 20 is refused.
failures-execute_example :
    (let s = run config (repeated 2 (ends 10 (err lost))) new_breaker in
      let x = execute message config 20 21 count_call s 0 in
      (2 < 2 → PassesOn count_call 0 x)
      × (2 ≡ config.failure_threshold → 20 - 10 < 30 → FailsFast message (30 - (20 - 10)) s 0 x)
      × (30 ≤ 20 - 10 → PassesOn count_call 0 x))
unfolding is_transient
failures-execute_example =
    failures-execute message config config-IsConfig lost 2 10 20 21 count_call 0 refl (omega arith)

abbrev retries : RetryConfig
retries = record { max_attempts = 3; base_delay = 500000000; max_delay = 10000000000 }

-- The first two calls fail.
abbrev flaky : ℕ → Result (StorageError foreign) ℕ × ℕ
flaky (suc (suc w)) = (ok w, suc (suc w))
flaky w = (err lost, suc w)

execute_with_retry-IsRetried_example :
    IsRetried flaky retries 0 3 0 (execute_with_retry flaky retries (λ n. n) 0)
execute_with_retry-IsRetried_example =
    execute_with_retry-IsRetried flaky retries (λ n. n) (omega arith) 0 (omega arith)
