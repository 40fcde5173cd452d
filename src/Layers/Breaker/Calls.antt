-- ===== src/Layers/Breaker/Calls.antt =====
-- When the breaker of crates/cloud_sync_lib/src/layers/circuit_breaker.rs lets a call through, when
-- it trips and when it recovers.
use cloud_sync_lib.Base.{
  ℕ, zero, suc, ◌+◌, ◌-◌, ◌≤◌, ◌<◌, ◌≡◌, refl, ap, ◌∙◌, Bool, true, false, List, [], ◌∷◌, arith,
  ltb, if◌then◌else◌,
}
use cloud_sync_lib.Base.Text.{Text}
use cloud_sync_lib.Storage.Errors.{
  Foreign, StorageError, connection_failed, Result, err, is_transient,
}
use cloud_sync_lib.Layers.Breaker.{
  CircuitBreakerConfig, State, closed, half_open, opened, BreakerInternal, new_breaker, before_call,
  after_call, execute, run_call, decide_call,
}
use cloud_sync_lib.Layers.Breaker.Events.{ends, run, IsConfig}

-- Open, and for less than the recovery timeout.
abbrev blocks_state : CircuitBreakerConfig → ℕ → State → Bool
blocks_state c now closed = false
blocks_state c now half_open = false
blocks_state c now (opened t) = ltb (now - t) c.recovery_timeout

abbrev pub blocks : CircuitBreakerConfig → ℕ → BreakerInternal → Bool
blocks c now s = blocks_state c now s.state

abbrev remaining_state : CircuitBreakerConfig → ℕ → State → ℕ
remaining_state c now closed = 0
remaining_state c now half_open = 0
remaining_state c now (opened t) = c.recovery_timeout - (now - t)

abbrev pub remaining : CircuitBreakerConfig → ℕ → BreakerInternal → ℕ
remaining c now s = remaining_state c now s.state

module _ {F : Foreign} {A W : Type 0} (message : ℕ → Text) where
  run_call-decide_call :
      (c : CircuitBreakerConfig) (started finished : ℕ) (f : W → Result (StorageError F) A × W)
      (st : State) (s : BreakerInternal) (w : W)
      → run_call message c finished f
          (decide_call c started st s).0
          (decide_call c started st s).1
          w
        ≡ (if blocks_state c started st
            then (err (connection_failed (message (remaining_state c started st))), s, w)
            else ((f w).0, after_call c finished (f w).0 (decide_call c started st s).1, (f w).1))
  run_call-decide_call c started finished f closed s w = refl
  run_call-decide_call c started finished f half_open s w = refl
  run_call-decide_call c started finished f (opened t) s w = ground arith

  -- While the circuit is open and the recovery timeout has not passed, a call fails at once with
  -- a connection error: the backend is not called and the breaker is as before. In every other
  -- state the backend is called, its answer is the call's, and the breaker records it.
  execute-blocks :
      (c : CircuitBreakerConfig) (started finished : ℕ) (f : W → Result (StorageError F) A × W)
      (s : BreakerInternal) (w : W)
      → execute message c started finished f s w ≡ (
          if blocks c started s
          then (err (connection_failed (message (remaining c started s))), s, w)
          else ((f w).0, after_call c finished (f w).0 (before_call c started s).1, (f w).1))
  unfolding execute before_call
  execute-blocks c started finished f s w = run_call-decide_call c started finished f s.state s w

abbrev pub repeated {ℓ} : {A : Type ℓ} → ℕ → A → List A
repeated zero a = []
repeated (suc n) a = a ∷ repeated n a

-- The breaker after some of the failures.
abbrev pub failed : CircuitBreakerConfig → ℕ → ℕ → BreakerInternal
failed c now n = record {
  state = if ltb n c.failure_threshold then closed else opened now;
  consecutive_failures = n;
  consecutive_successes = 0;
}

module _ {F : Foreign} (c : CircuitBreakerConfig) (now : ℕ) (k : IsConfig c) where
  failed-step :
      (e : StorageError F) (n : ℕ)
      → is_transient e ≡ true
      → n < c.failure_threshold
      → after_call {A = Unit {0}} c now (err e) (failed c now n) ≡ failed c now (suc n)
  unfolding after_call
  failed-step e n t h = ground arith

  run_from_failed :
      (e : StorageError F) (m n : ℕ)
      → is_transient e ≡ true
      → n + m ≤ c.failure_threshold
      → run c (repeated m (ends now (err e))) (failed c now n) ≡ failed c now (n + m)
  unfolding run
  run_from_failed e zero n t h = let i : n ≡ n + 0 = omega arith in ap (failed c now) i
  run_from_failed e (suc m) n t h =
      let i : suc n + m ≡ n + suc m = omega arith in
      ap (run c (repeated m (ends now (err e)))) (failed-step e n t (omega arith))
      ∙ run_from_failed e m (suc n) t (omega arith)
      ∙ ap (failed c now) i

  -- A new breaker with positive thresholds stays closed through fewer transient failures in a row
  -- than the threshold, and is open, since the last failure, when the threshold is reached.
  run_failures :
      (e : StorageError F) (n : ℕ)
      → is_transient e ≡ true
      → n ≤ c.failure_threshold
      → run c (repeated n (ends now (err e))) new_breaker ≡ failed c now n
  run_failures e n t h =
      let start : new_breaker ≡ failed c now 0 = unfold new_breaker in ground arith in
      ap (run c (repeated n (ends now (err e)))) start
      ∙ run_from_failed e n 0 t (omega arith)
      ∙ ap (failed c now) (omega arith)

-- What a call through a breaker does to the result and to the backend's world: it is the backend's
-- own, or it fails at once with the time that remains.
abbrev pub PassesOn :
    {F : Foreign} {A W : Type 0}
    → (W → Result (StorageError F) A × W)
    → W
    → Result (StorageError F) A × BreakerInternal × W
    → Type 0
PassesOn f w (r, s, w') = (r ≡ (f w).0) × (w' ≡ (f w).1)

abbrev pub FailsFast :
    {F : Foreign} {A W : Type 0}
    → (ℕ → Text)
    → ℕ
    → BreakerInternal
    → W
    → Result (StorageError F) A × BreakerInternal × W
    → Type 0
FailsFast message left s w x = x ≡ (err (connection_failed (message left)), s, w)

module _ {F : Foreign} {A W : Type 0} (message : ℕ → Text) (c : CircuitBreakerConfig)
    (k : IsConfig c) where
  passes_on :
      (f : W → Result (StorageError F) A × W) (w : W)
      (x fast : Result (StorageError F) A × BreakerInternal × W) (t : BreakerInternal) {b : Bool}
      → x ≡ (if b then fast else ((f w).0, t, (f w).1))
      → b ≡ false
      → PassesOn f w x
  passes_on f w x fast t e h =
      let i : x ≡ ((f w).0, t, (f w).1) =
        e ∙ ap (λ b. if b then fast else ((f w).0, t, (f w).1)) h in
      (ap (λ y. y.0) i, ap (λ y. y.2) i)

  -- Let a new breaker with positive `u32` thresholds see a number of transient failures in a row, at one
  -- time and up to the failure threshold. Below the threshold the next call reaches the backend. At the
  -- threshold it fails at once, with the backend and the breaker left alone, until the recovery timeout
  -- has passed since the failures, and then it reaches the backend again.
  pub failures-execute :
      (e : StorageError F) (n failed_at started finished : ℕ)
      (f : W → Result (StorageError F) A × W) (w : W)
      → is_transient e ≡ true
      → n ≤ c.failure_threshold
      → (let s = run c (repeated n (ends failed_at (err e))) new_breaker in
          let x = execute message c started finished f s w in
          (n < c.failure_threshold → PassesOn f w x)
          × (n ≡ c.failure_threshold
              → started - failed_at < c.recovery_timeout
              → FailsFast message (c.recovery_timeout - (started - failed_at)) s w x)
          × (c.recovery_timeout ≤ started - failed_at → PassesOn f w x))
  failures-execute e n failed_at started finished f w t h =
      let s = run c (repeated n (ends failed_at (err e))) new_breaker in
      let tripped : s ≡ failed c failed_at n = run_failures c failed_at k e n t h in
      rw tripped (
        let g = failed c failed_at n in
        let calls = execute-blocks message c started finished f g w in
        (
          λ l. passes_on f w _ _ _ {b = blocks c started g} calls (below l),
          λ i l. calls ∙ ground arith,
          λ l. passes_on f w _ _ _ {b = blocks c started g} calls (after l),
        ))
    where
      below : n < c.failure_threshold → blocks c started (failed c failed_at n) ≡ false
      below l = ground arith

      after :
          c.recovery_timeout ≤ started - failed_at → blocks c started (failed c failed_at n) ≡ false
      after l = ground arith
