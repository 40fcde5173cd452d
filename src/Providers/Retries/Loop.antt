-- ===== src/Providers/Retries/Loop.antt =====
-- A whole call through the retry helper of crates/cloud_sync_lib/src/providers/utils.rs, against the
-- answers that the operation gives when it is called again and again.
use mathlib.Core.Path.{subst}
use cloud_sync_lib.Base.{
  ℕ, zero, suc, ◌+◌, ◌-◌, ◌^◌, ◌≤◌, ◌<◌, ◌≡◌, refl, sym, ap, ◌⊎◌, inl, inr, Bool, true, false, ◌&&◌,
  Option, some, List, [], ◌∷◌, arith, ltb,
}
use cloud_sync_lib.Base.Tests.{Bool-cases}
use cloud_sync_lib.Base.Lists.{length}
use cloud_sync_lib.Storage.Errors.{Foreign, StorageError, Result, ok, err}
use cloud_sync_lib.Layers.Retry.{returned, Run}
use cloud_sync_lib.Providers.Retries.{
  HelperConfig, is_transient_error, last_attempt, sleep_duration, after_attempt, attempts_loop,
  retry_helper,
}

gives_up-cases : (n limit : ℕ) (b : Bool) → (b && ltb n limit) ≡ false → (b ≡ false) ⊎ (limit ≤ n)
gives_up-cases n limit b h = ground arith

goes_on-cases : (n limit : ℕ) (b : Bool) → (b && ltb n limit) ≡ true → (b ≡ true) × (n < limit)
goes_on-cases n limit b h = ground arith

last-stops : (b : Bool) (n limit : ℕ) → limit ≤ n → (b && ltb n limit) ≡ false
last-stops b n limit h = ground arith

module _ {F : Foreign} (http_status : F.HttpError → Option ℕ) {A W : Type 0}
    (f : W → Result (StorageError F) A × W) (c : HelperConfig) (scaled : ℕ → Option ℕ) where
  -- The world after some calls of the operation, and the answer of the call after those.
  abbrev pub world_after : ℕ → W → W
  world_after zero w = w
  world_after (suc n) w = world_after n (f w).1

  abbrev pub answer : ℕ → W → Result (StorageError F) A
  answer n w = (f (world_after n w)).0

  -- An answer that is waited on: the wish of the server, or the delay.
  abbrev pub IsWait : Result (StorageError F) A → ℕ → ℕ → Type 0
  IsWait (ok v) delay d = ⊥
  IsWait (err e) delay d =
      (is_transient_error http_status e ≡ true)
      × (d ≡ sleep_duration http_status f c scaled e delay)

  -- The sleeps, while the delay is scaled after each.
  abbrev pub Backoff : ℕ → List ℕ → W → Type 0
  Backoff delay [] w = Unit
  Backoff delay (d ∷ ds) w =
      IsWait (f w).0 delay d × (next : ℕ) × (scaled delay ≡ some next) × Backoff next ds (f w).1

  -- An answer that ends the call when it is the one of that attempt.
  abbrev pub Stops : ℕ → Result (StorageError F) A → Type 0
  Stops n (ok v) = Unit
  Stops n (err e) = (is_transient_error http_status e ≡ false) ⊎ (c.max_attempts ≤ n)

  pub record IsBackedOff (n delay : ℕ) (w : W) (run : Run F A W) : Type 0 where
    pub waited : Backoff delay run.sleeps w
    pub answered : run.ended ≡ returned (answer (length run.sleeps) w)
    pub called : run.world ≡ world_after (suc (length run.sleeps)) w
    pub attempts_le : n + suc (length run.sleeps) ≤ c.max_attempts
    pub stopped : Stops (n + suc (length run.sleeps)) (answer (length run.sleeps) w)

  -- A delay can be scaled so many times.
  abbrev pub Scales : ℕ → ℕ → Type 0
  Scales zero delay = Unit
  Scales (suc n) delay = (next : ℕ) × (scaled delay ≡ some next) × Scales n next

  module _ (some_attempts : 0 < c.max_attempts) (attempts_u64 : c.max_attempts < 2 ^ 64) where
    done-IsBackedOff :
        (n delay : ℕ) (w : W) (r : Result (StorageError F) A)
        → n < c.max_attempts
        → (f w).0 ≡ r
        → Stops (n + 1) r
        → IsBackedOff n delay w (record { ended = returned r; sleeps = []; world = (f w).1 })
    done-IsBackedOff n delay w r h e s = record {
      waited = tt;
      answered = ap returned (sym e);
      called = refl;
      attempts_le = omega arith;
      stopped = subst (Stops (n + 1)) (sym e) s;
    }

    again-IsBackedOff :
        (n delay d next : ℕ) (w : W) (rest : Run F A W)
        → IsWait (f w).0 delay d
        → scaled delay ≡ some next
        → IsBackedOff (n + 1) next (f w).1 rest
        → IsBackedOff n delay w
            (record { ended = rest.ended; sleeps = d ∷ rest.sleeps; world = rest.world })
    again-IsBackedOff n delay d next w rest i k r =
        let l : n + 1 + suc (length rest.sleeps) ≡ n + suc (suc (length rest.sleeps)) =
          omega arith in
        record {
          waited = (i, next, k, r.waited);
          answered = r.answered;
          called = r.called;
          attempts_le = (let h = r.attempts_le in omega arith);
          stopped = subst (λ m. Stops m (answer (length rest.sleeps) (f w).1)) l r.stopped;
        }

    after_attempt-IsBackedOff :
        (n left delay : ℕ) (w : W) (r : Result (StorageError F) A) (next : ℕ → Run F A W)
        → n + 1 + left ≡ c.max_attempts
        → Scales left delay
        → (f w).0 ≡ r
        → ((d rest : ℕ)
            → n + 1 + (rest + 1) ≡ c.max_attempts
            → Scales rest d
            → IsBackedOff (n + 1) d (f w).1 (next d))
        → IsBackedOff n delay w (after_attempt http_status f c scaled r n delay (f w).1 next)
    after_attempt-IsBackedOff n left delay w (ok v) next h sc e ih =
        done-IsBackedOff n delay w (ok v) (omega arith) e tt
    after_attempt-IsBackedOff n zero delay w (err x) next h sc e ih =
        let limit = last_attempt http_status f c scaled in
        let stop : (is_transient_error http_status x && ltb n limit) ≡ false =
          last-stops (is_transient_error http_status x) n limit (omega arith) in
        rw stop (done-IsBackedOff n delay w (err x) (omega arith) e (inr (omega arith)))
    after_attempt-IsBackedOff n (suc left) delay w (err x) next h (d, k, sc) e ih =
        let limit = last_attempt http_status f c scaled in
        elim (Bool-cases (is_transient_error http_status x && ltb n limit)) [
          | inl i ↦
              let (t, l) = goes_on-cases n limit (is_transient_error http_status x) i in
              rw (i, k)
                (again-IsBackedOff n delay _ d w (next d)
                  (subst (λ r. IsWait r delay (sleep_duration http_status f c scaled x delay))
                    (sym e) (t, refl))
                  k (ih d left (omega arith) sc))
          | inr i ↦ rw i (
              done-IsBackedOff n delay w (err x) (omega arith) e
                (elim (gives_up-cases n limit (is_transient_error http_status x) i) [
                  | inl t ↦ inl t
                  | inr l ↦ inr (omega arith)
                ]))
        ]

    attempts_loop-IsBackedOff :
        (fuel n left delay : ℕ) (w : W)
        → n + 1 + left ≡ c.max_attempts
        → Scales left delay
        → c.max_attempts ≤ n + fuel
        → IsBackedOff n delay w (attempts_loop http_status f c scaled fuel n delay w)
    unfolding attempts_loop
    attempts_loop-IsBackedOff zero n left delay w h sc m = absurd (omega arith)
    attempts_loop-IsBackedOff (suc fuel) n left delay w h sc m =
        after_attempt-IsBackedOff n left delay w (f w).0 _ h sc refl (λ d rest l sd.
          attempts_loop-IsBackedOff fuel (n + 1) rest d (f w).1 (omega arith) sd (omega arith))

    -- Let the number of attempts be a positive `usize`, and let the initial delay be scaled to a
    -- `Duration` once for each attempt but the last. Then, with as much fuel as there are attempts, a
    -- call returns: it calls the operation at most that often; it waits after a transient error only,
    -- as long as the server asks or else for the current delay, which is scaled after each wait; and
    -- its result is the last answer, which is a value, or an error that is not transient or that used
    -- up the attempts.
    pub retry_helper-IsBackedOff :
        (fuel : ℕ) (w : W)
        → Scales (c.max_attempts - 1) c.initial_delay
        → c.max_attempts ≤ fuel
        → IsBackedOff 0 c.initial_delay w (retry_helper http_status f c scaled fuel w)
    unfolding retry_helper
    retry_helper-IsBackedOff fuel w sc h =
        attempts_loop-IsBackedOff fuel 0 (c.max_attempts - 1) c.initial_delay w (omega arith) sc
          (omega arith)
