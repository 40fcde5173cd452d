-- ===== src/Layers/Retry/Bounds.antt =====
-- The delay between two attempts in crates/cloud_sync_lib/src/layers/retry.rs.
use native.Mathlib.Nat.{mod-lt}
use mathlib.Core.Option
use cloud_sync_lib.Base.{
  true, ℕ, zero, suc, ◌+◌, ◌*◌, ◌%◌, ◌≤◌, ◌<◌, ◌≡◌, refl, ap, Option, none, some, arith, ltb,
}
use cloud_sync_lib.Storage.Errors.{Foreign, StorageError, retry_after}
use cloud_sync_lib.Layers.Retry.{RetryConfig, u64_max, millis, ceiling, jittered, sleep_dur}

-- What a delay may be: the server's wish, or at most the configured maximum.
abbrev pub DelayFor : RetryConfig → Option ℕ → ℕ → Type 0
DelayFor c (some wish) d = d ≡ wish
DelayFor c none d = d ≤ c.max_delay

millis-le : (d : ℕ) → millis d * 1000000 ≤ d
millis-le d = omega arith

pub ceiling-le : (c : RetryConfig) (attempts : ℕ) → ceiling c attempts ≤ millis c.max_delay
unfolding ceiling
ceiling-le c attempts = omega arith

jittered-le :
    (random top : ℕ) → top < u64_max → (ms : ℕ) × (jittered random top ≡ some ms) × (ms ≤ top)
unfolding jittered
jittered-le random zero h = (0, refl, omega arith)
jittered-le random (suc n) h =
    let i : ltb (suc n) u64_max ≡ true = ground arith in
    let b : random % (suc n + 1) < suc n + 1 = mod-lt random (omega arith) in
    let z : ltb 0 (suc n) ≡ true = ground arith in
    (random % (suc n + 1), rw (z, i) refl, omega arith)

-- Unless the maximal delay is 2 ^ 64 - 1 milliseconds, there is a delay after every error: what
-- the server asks for, and else at most the maximal delay.
pub sleep_dur-DelayFor :
    {F : Foreign} (c : RetryConfig) (random attempts : ℕ) (e : StorageError F)
    → millis c.max_delay < u64_max
    → (d : ℕ) × (sleep_dur c random attempts e ≡ some d) × DelayFor c (retry_after e) d
unfolding sleep_dur
sleep_dur-DelayFor c random attempts e h =
    elim (retry_after e)
      as (λ o.
        (d : ℕ) × (elim o [
          | some dur ↦ some dur
          | none ↦ Option.map (λ ms. ms * 1000000) (jittered random (ceiling c attempts))
        ]
          ≡ some d)
        × DelayFor c o d) [
          | some dur ↦ (dur, refl, refl)
          | none ↦
              let (ms, i, b) =
                jittered-le random (ceiling c attempts)
                  (let m = ceiling-le c attempts in omega arith) in
              (
                ms * 1000000,
                ap (Option.map (λ ms. ms * 1000000)) i,
                (let m = ceiling-le c attempts in let l = millis-le c.max_delay in omega arith),
              )
        ]
