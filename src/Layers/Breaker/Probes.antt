-- ===== src/Layers/Breaker/Probes.antt =====
-- The half-open state of the breaker of crates/cloud_sync_lib/src/layers/circuit_breaker.rs.
use mathlib.Core.Path.{subst}
use cloud_sync_lib.Base.{
  ℕ, zero, suc, ◌+◌, ◌-◌, ◌^◌, ◌≤◌, ◌<◌, ◌≡◌, ap, ◌∙◌, arith, ltb, List, if◌then◌else◌, true,
}
use cloud_sync_lib.Base.Lists.{length}
use cloud_sync_lib.Storage.Errors.{Foreign, StorageError, ok, err, is_transient}
use cloud_sync_lib.Layers.Breaker.{
  CircuitBreakerConfig, closed, half_open, opened, BreakerInternal, new_breaker, after_call,
}
use cloud_sync_lib.Layers.Breaker.Events.{Event, ends, run, IsConfig, StateInv, run-Inv}
use cloud_sync_lib.Layers.Breaker.Calls.{repeated}

-- The breaker after some successful probes.
abbrev pub probed : CircuitBreakerConfig → ℕ → ℕ → BreakerInternal
probed c f n =
    if ltb n c.probe_success_threshold
    then record { state = half_open; consecutive_failures = f; consecutive_successes = n }
    else record { state = closed; consecutive_failures = 0; consecutive_successes = n }

module _ (F : Foreign) (c : CircuitBreakerConfig) (now : ℕ) (k : IsConfig c) where
  probed-step :
      (f n : ℕ)
      → n < c.probe_success_threshold
      → after_call {F = F} {A = Unit {0}} c now (ok tt) (probed c f n) ≡ probed c f (suc n)
  unfolding after_call
  probed-step f n h = ground arith

  run_from_probed :
      (f m n : ℕ)
      → n + m ≤ c.probe_success_threshold
      → run {F = F} c (repeated m (ends now (ok tt))) (probed c f n) ≡ probed c f (n + m)
  unfolding run
  run_from_probed f zero n h = let i : n ≡ n + 0 = omega arith in ap (probed c f) i
  run_from_probed f (suc m) n h =
      let i : suc n + m ≡ n + suc m = omega arith in
      ap (run {F = F} c (repeated m (ends now (ok tt)))) (probed-step f n (omega arith))
      ∙ run_from_probed f m (suc n) (omega arith)
      ∙ ap (probed c f) i

  -- From half open with no success yet, the breaker stays half open through fewer successful
  -- calls in a row than it wants probes, and is closed with no failures when it has them.
  run_probes :
      (f n : ℕ)
      → n ≤ c.probe_success_threshold
      → run {F = F} c (repeated n (ends now (ok tt))) (probed c f 0) ≡ probed c f n
  run_probes f n h = run_from_probed f n 0 (omega arith) ∙ ap (probed c f) (omega arith)

  reopens :
      (n : ℕ) (e : StorageError F) (s : BreakerInternal)
      → n < 2 ^ 32 - 1
      → is_transient e ≡ true
      → StateInv c n half_open s.consecutive_failures s.consecutive_successes
      → (after_call {A = Unit {0}} c now (err e) s).state ≡ opened now
  unfolding after_call
  reopens n e s small t v = ground arith

  -- In every history of fewer than 2 ^ 32 - 1 events that leaves a new breaker half open, one
  -- transient failure more opens it again, from the time of that failure.
  probe_failure_reopens :
      (es : List (Event F)) (e : StorageError F)
      → length es < 2 ^ 32 - 1
      → (run c es new_breaker).state ≡ half_open
      → is_transient e ≡ true
      → (after_call {F = F} {A = Unit {0}} c now (err e) (run c es new_breaker)).state ≡ opened now
  probe_failure_reopens es e small h t =
      let s : BreakerInternal = run c es new_breaker in
      reopens (length es) e s small t (
        subst (λ st. StateInv c (length es) st s.consecutive_failures s.consecutive_successes) h
          (run-Inv c es k (omega arith)))
