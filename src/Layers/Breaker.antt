-- ===== src/Layers/Breaker.antt =====
-- crates/cloud_sync_lib/src/layers/circuit_breaker.rs. Time is an argument of each half of a call;
-- the text of the fast-fail error is a function of the time that remains.
pub mod Events
pub mod Calls
pub mod Probes
pub mod Examples
use cloud_sync_lib.Base.{ℕ, ◌+◌, ◌-◌, ◌%◌, ◌^◌, Bool, true, false, leb, if◌then◌else◌}
use cloud_sync_lib.Base.Text.{Text}
use cloud_sync_lib.Storage.Errors.{
  Foreign, StorageError, connection_failed, Result, ok, err, is_transient,
}

-- Two `u32` and a `Duration`.
pub record CircuitBreakerConfig : Type 0 where
  pub failure_threshold : ℕ
  pub recovery_timeout : ℕ
  pub probe_success_threshold : ℕ

pub data State : Type 0 where
  closed half_open : State
  opened : ℕ → State

pub record BreakerInternal : Type 0 where
  pub state : State
  pub consecutive_failures : ℕ
  pub consecutive_successes : ℕ

unfoldable pub new_breaker : BreakerInternal
new_breaker = record { state = closed; consecutive_failures = 0; consecutive_successes = 0 }

-- `+= 1` on a `u32`
abbrev pub inc : ℕ → ℕ
inc n = (n + 1) % 2 ^ 32

-- The verdict: the call may go ahead, or it is refused with the time that remains.
pub data Verdict : Type 0 where
  allowed : Verdict
  refused : ℕ → Verdict

abbrev decide_call : CircuitBreakerConfig → ℕ → State → BreakerInternal → Verdict × BreakerInternal
decide_call c now closed s = (allowed, s)
decide_call c now half_open s = (allowed, s)
decide_call c now (opened opened_at) s =
    if leb c.recovery_timeout (now - opened_at)
    then (allowed, record s { state = half_open; consecutive_successes = 0 })
    else (refused (c.recovery_timeout - (now - opened_at)), s)

unfoldable pub before_call : CircuitBreakerConfig → ℕ → BreakerInternal → Verdict × BreakerInternal
before_call c now s = decide_call c now s.state s

abbrev after_success : CircuitBreakerConfig → State → BreakerInternal → BreakerInternal
after_success c half_open s =
    let t = record s { consecutive_successes = inc s.consecutive_successes } in
    if leb c.probe_success_threshold t.consecutive_successes
    then record t { state = closed; consecutive_failures = 0 }
    else t
after_success c closed s = record s { consecutive_failures = 0 }
after_success c (opened opened_at) s = s

abbrev after_transient : CircuitBreakerConfig → ℕ → BreakerInternal → BreakerInternal
after_transient c now s =
    let t = record s { consecutive_failures = inc s.consecutive_failures } in
    if leb c.failure_threshold t.consecutive_failures then record t { state = opened now } else t

unfoldable pub after_call :
    {F : Foreign} {A : Type 0}
    → CircuitBreakerConfig
    → ℕ
    → Result (StorageError F) A
    → BreakerInternal
    → BreakerInternal
unfolding is_transient
after_call c now (ok a) s = after_success c s.state s
after_call c now (err e) s = if is_transient e then after_transient c now s else s

module _ {F : Foreign} {A W : Type 0} (message : ℕ → Text) where
  abbrev run_call :
      CircuitBreakerConfig
      → ℕ
      → (W → Result (StorageError F) A × W)
      → Verdict
      → BreakerInternal
      → W
      → Result (StorageError F) A × BreakerInternal × W
  run_call c finished f allowed s w = let (r, w') = f w in (r, after_call c finished r s, w')
  run_call c finished f (refused remaining) s w =
      (err (connection_failed (message remaining)), s, w)

  -- `execute`, when no other call comes between: started and finished are the two times.
  unfoldable pub execute :
      CircuitBreakerConfig
      → (started finished : ℕ) → (W → Result (StorageError F) A × W)
      → BreakerInternal
      → W
      → Result (StorageError F) A × BreakerInternal × W
  unfolding before_call after_call
  execute c started finished f s w =
      let (v, s') = before_call c started s in run_call c finished f v s' w
