-- ===== src/Layers/Retry/Loop.antt =====
-- A whole call through crates/cloud_sync_lib/src/layers/retry.rs, against the answers that the
-- backend gives when it is called again and again.
use mathlib.Core.Path.{subst, sym}
use cloud_sync_lib.Base.{
  max, ℕ, zero, suc, ◌+◌, ◌^◌, ◌%◌, ◌≤◌, ◌<◌, ◌≡◌, refl, ap, ◌⊎◌, inl, inr, Bool, true, false, List,
  [], ◌∷◌, arith, leb, not, ◌||◌, some,
}
use cloud_sync_lib.Base.Tests.{Bool-cases}
use cloud_sync_lib.Base.Lists.{length}
use cloud_sync_lib.Storage.Errors.{Foreign, StorageError, Result, ok, err, retry_after}
use cloud_sync_lib.Layers.Retry.{
  RetryConfig, u64_max, millis, is_retryable, returned, Run, settle, sleep_then, retry_loop,
  execute_with_retry,
}
use cloud_sync_lib.Layers.Retry.Bounds.{DelayFor, sleep_dur-DelayFor}

stops-cases : (limit n : ℕ) (b : Bool) → (leb limit n || not b) ≡ true → (limit ≤ n) ⊎ (b ≡ false)
stops-cases limit n b h = ground arith

goes-cases : (limit n : ℕ) (b : Bool) → (leb limit n || not b) ≡ false → (b ≡ true) × (n < limit)
goes-cases limit n b h = ground arith

module _ {F : Foreign} {A W : Type 0} (f : W → Result (StorageError F) A × W)
    (c : RetryConfig) where
  -- The world after some calls of the backend, and the answer of the call after those.
  abbrev pub world_after : ℕ → W → W
  world_after zero w = w
  world_after (suc n) w = world_after n (f w).1

  abbrev pub answer : ℕ → W → Result (StorageError F) A
  answer n w = (f (world_after n w)).0

  -- An answer that is waited on.
  abbrev pub IsWait : Result (StorageError F) A → ℕ → Type 0
  IsWait (ok v) d = ⊥
  IsWait (err e) d = (is_retryable e ≡ true) × DelayFor c (retry_after e) d

  abbrev pub Waits : List ℕ → W → Type 0
  Waits [] w = Unit
  Waits (d ∷ ds) w = IsWait (f w).0 d × Waits ds (f w).1

  -- An answer that ends the call when it is the one of that attempt.
  abbrev pub Stops : ℕ → Result (StorageError F) A → Type 0
  Stops n (ok v) = Unit
  Stops n (err e) = (c.max_attempts ≤ n) ⊎ (is_retryable e ≡ false)

  pub record IsRetried (n limit : ℕ) (w : W) (run : Run F A W) : Type 0 where
    pub waited : Waits run.sleeps w
    pub answered : run.ended ≡ returned (answer (length run.sleeps) w)
    pub called : run.world ≡ world_after (suc (length run.sleeps)) w
    pub attempts_le : n + suc (length run.sleeps) ≤ limit
    pub stopped : Stops (n + suc (length run.sleeps)) (answer (length run.sleeps) w)

  module _ (random : ℕ → ℕ) (fits : millis c.max_delay < u64_max) where
    done :
        (n limit : ℕ) (w : W) (r : Result (StorageError F) A)
        → n < limit
        → (f w).0 ≡ r
        → Stops (suc n) r
        → IsRetried n limit w (record { ended = returned r; sleeps = []; world = (f w).1 })
    done n limit w r h e s =
        let i : suc n ≡ n + 1 = omega arith in
        record {
          waited = tt;
          answered = ap returned (sym e);
          called = refl;
          attempts_le = omega arith;
          stopped = subst (λ m. Stops m (f w).0) i (subst (Stops (suc n)) (sym e) s);
        }

    again :
        (n limit : ℕ) (w : W) (d : ℕ) (rest : Run F A W)
        → IsWait (f w).0 d
        → IsRetried (suc n) limit (f w).1 rest
        → IsRetried n limit w (sleep_then f c random (some d) (f w).1 rest)
    again n limit w d rest i r =
        let l : suc n + suc (length rest.sleeps) ≡ n + suc (suc (length rest.sleeps)) =
          omega arith in
        record {
          waited = (i, r.waited);
          answered = r.answered;
          called = r.called;
          attempts_le = (let h = r.attempts_le in omega arith);
          stopped = subst (λ m. Stops m (answer (length rest.sleeps) (f w).1)) l r.stopped;
        }

    settled :
        (n limit : ℕ) (w : W) (r : Result (StorageError F) A) (rest : Run F A W)
        → n < limit
        → c.max_attempts ≤ limit
        → (f w).0 ≡ r
        → (suc n < limit → IsRetried (suc n) limit (f w).1 rest)
        → IsRetried n limit w (settle f c random r (suc n) (f w).1 rest)
    unfolding settle
    settled n limit w (ok v) rest h m e ih = done n limit w (ok v) h e tt
    settled n limit w (err x) rest h m e ih =
        let stop = leb c.max_attempts (suc n) || not (is_retryable x) in
        elim (Bool-cases stop) [
          | inl i ↦
              rw i
                (done n limit w (err x) h e (stops-cases c.max_attempts (suc n) (is_retryable x) i))
          | inr i ↦
              let (k, l) = goes-cases c.max_attempts (suc n) (is_retryable x) i in
              let (d, j, p) = sleep_dur-DelayFor c (random (suc n)) (suc n) x fits in
              rw (i, j)
                (again n limit w d rest (subst (λ r. IsWait r d) (sym e) (k, p)) (ih (omega arith)))
        ]

    retried_from :
        (fuel n limit : ℕ) (w : W)
        → n < limit
        → limit < 2 ^ 32
        → c.max_attempts ≤ limit
        → limit ≤ n + fuel
        → IsRetried n limit w (retry_loop f c random fuel n w)
    unfolding retry_loop
    retried_from zero n limit w h small m enough = absurd (omega arith)
    retried_from (suc fuel) n limit w h small m enough =
        let i : (n + 1) % 2 ^ 32 ≡ suc n = omega arith in
        rw i (
          settled n limit w (f w).0 (retry_loop f c random fuel (suc n) (f w).1) h m refl
            (λ k. retried_from fuel (suc n) limit (f w).1 k small m (omega arith)))

    -- Let the number of attempts be a `u32` and the maximal delay, in milliseconds, below the
    -- largest `u64`. Then a call returns: it calls the backend at most as often as configured, and
    -- once at least; it waits after a retryable error only, each time as long as the server asks
    -- or at most the maximal delay; and its result is the backend's last answer, which is a value,
    -- or an error that is not retryable or that used up the attempts.
    pub execute_with_retry-IsRetried :
        (w : W)
        → c.max_attempts < 2 ^ 32
        → IsRetried 0 (max 1 c.max_attempts) w (execute_with_retry f c random w)
    unfolding execute_with_retry
    execute_with_retry-IsRetried w h =
        retried_from (suc c.max_attempts) 0 (max 1 c.max_attempts) w (omega arith) (omega arith)
          (omega arith) (omega arith)
