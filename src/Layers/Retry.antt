-- ===== src/Layers/Retry.antt =====
-- crates/cloud_sync_lib/src/layers/retry.rs. The sleeps of a call are listed in their order; the
-- random number of each attempt is an argument. A Duration is a number of nanoseconds.
pub mod Bounds
pub mod Loop
use mathlib.Core.Option
use cloud_sync_lib.Base.{
  ℕ, zero, suc, ◌+◌, ◌-◌, ◌*◌, ◌/◌, ◌%◌, ◌^◌, min, Bool, ◌||◌, not, Option, none, some, List, [],
  ◌∷◌, leb, ltb, if◌then◌else◌,
}
use cloud_sync_lib.Storage.Errors.{
  Foreign, StorageError, Result, ok, err, is_transient, is_auth_expired, retry_after,
}

pub record RetryConfig : Type 0 where
  pub max_attempts : ℕ
  pub base_delay : ℕ
  pub max_delay : ℕ

abbrev pub u64_max : ℕ
u64_max = 2 ^ 64 - 1

-- `d.as_millis() as u64`
abbrev pub millis : ℕ → ℕ
millis d = d / 1000000 % 2 ^ 64

unfoldable pub is_retryable : {F : Foreign} → StorageError F → Bool
unfolding is_transient is_auth_expired
is_retryable e = is_transient e || is_auth_expired e

-- `1u64.checked_shl(attempts.saturating_sub(1)).unwrap_or(u64::MAX)`
unfoldable pub exp_factor : ℕ → ℕ
exp_factor attempts = if ltb (attempts - 1) 64 then 2 ^ (attempts - 1) else u64_max

-- `base_delay_ms.saturating_mul(exp_factor).min(max_delay_ms)`
unfoldable pub ceiling : RetryConfig → ℕ → ℕ
unfolding exp_factor
ceiling c attempts =
    min (min (millis c.base_delay * exp_factor attempts) u64_max) (millis c.max_delay)

-- The random number is reduced by `% (ceiling + 1)`, an addition that overflows, or wraps round to
-- a division by 0, at the largest `u64`: no delay, a panic.
unfoldable pub jittered : ℕ → ℕ → Option ℕ
jittered random top =
    if ltb 0 top then (if ltb top u64_max then some (random % (top + 1)) else none) else some 0

unfoldable pub sleep_dur : {F : Foreign} → RetryConfig → ℕ → ℕ → StorageError F → Option ℕ
unfolding retry_after jittered ceiling
sleep_dur c random attempts e = elim (retry_after e) [
  | some dur ↦ some dur
  | none ↦ Option.map (λ ms. ms * 1000000) (jittered random (ceiling c attempts))
]

-- How a call ends: a value or an error of the backend, a panic, or no fuel.
pub data Ended (F : Foreign) (A : Type 0) : Type 0 where
  returned : Result (StorageError F) A → Ended F A
  panicked : Ended F A
  stuck : Ended F A

pub record Run (F : Foreign) (A W : Type 0) : Type 0 where
  pub ended : Ended F A
  pub sleeps : List ℕ
  pub world : W

module _ {F : Foreign} {A W : Type 0} (f : W → Result (StorageError F) A × W) (c : RetryConfig)
    (random : ℕ → ℕ) where
  abbrev pub sleep_then : Option ℕ → W → Run F A W → Run F A W
  sleep_then none w rest = record { ended = panicked; sleeps = []; world = w }
  sleep_then (some d) w rest = record {
    ended = rest.ended;
    sleeps = d ∷ rest.sleeps;
    world = rest.world;
  }

  -- The `match` on the answer of an attempt.
  unfoldable pub settle : Result (StorageError F) A → ℕ → W → Run F A W → Run F A W
  unfolding is_retryable sleep_dur
  settle (ok v) attempts w rest = record { ended = returned (ok v); sleeps = []; world = w }
  settle (err e) attempts w rest =
      if leb c.max_attempts attempts || not (is_retryable e)
      then record { ended = returned (err e); sleeps = []; world = w }
      else sleep_then (sleep_dur c (random attempts) attempts e) w rest

  unfoldable pub retry_loop : ℕ → ℕ → W → Run F A W
  unfolding settle
  retry_loop zero attempts w = record { ended = stuck; sleeps = []; world = w }
  retry_loop (suc fuel) attempts w =
      let n = (attempts + 1) % 2 ^ 32 in
      let (r, w') = f w in let rest = retry_loop fuel n w' in settle r n w' rest

  unfoldable pub execute_with_retry : W → Run F A W
  unfolding retry_loop
  execute_with_retry w = retry_loop (suc c.max_attempts) 0 w
