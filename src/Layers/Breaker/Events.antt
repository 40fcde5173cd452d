-- ===== src/Layers/Breaker/Events.antt =====
-- Any interleaving of calls through the breaker of
-- crates/cloud_sync_lib/src/layers/circuit_breaker.rs: the mutex makes each half of a call one
-- event, so a history is a list of events in any order.
use mathlib.Core.Path.{subst}
use cloud_sync_lib.Base.{
  ℕ, suc, ◌+◌, ◌^◌, ◌≤◌, ◌<◌, ◌≡◌, refl, true, false, List, [], ◌∷◌, arith, if◌then◌else◌,
}
use cloud_sync_lib.Base.Lists.{length}
use cloud_sync_lib.Storage.Errors.{Foreign, StorageError, Result, ok, err, is_transient}
use cloud_sync_lib.Layers.Breaker.{
  CircuitBreakerConfig, State, closed, half_open, opened, BreakerInternal, new_breaker, before_call,
  after_call, decide_call, after_success, after_transient,
}

pub data Event (F : Foreign) : Type 0 where
  begins : ℕ → Event F
  ends : ℕ → Result (StorageError F) (Unit {0}) → Event F

abbrev pub step : {F : Foreign} → CircuitBreakerConfig → Event F → BreakerInternal → BreakerInternal
step c (begins now) s = (before_call c now s).1
step c (ends now r) s = after_call c now r s

unfoldable pub run :
    {F : Foreign} → CircuitBreakerConfig → List (Event F) → BreakerInternal → BreakerInternal
run c [] s = s
run c (e ∷ es) s = run c es (step c e s)

-- Thresholds are positive `u32`.
pub record IsConfig (c : CircuitBreakerConfig) : Type 0 where
  pub some_failures : 0 < c.failure_threshold
  pub failures_u32 : c.failure_threshold < 2 ^ 32
  pub some_probes : 0 < c.probe_success_threshold
  pub probes_u32 : c.probe_success_threshold < 2 ^ 32

abbrev pub StateInv : CircuitBreakerConfig → ℕ → State → ℕ → ℕ → Type 0
StateInv c n closed f p = (f < c.failure_threshold) × (f ≤ n)
StateInv c n half_open f p = (c.failure_threshold ≤ f) × (f ≤ n) × (p < c.probe_success_threshold)
StateInv c n (opened t) f p = (c.failure_threshold ≤ f) × (f ≤ n)

-- After n events: a closed breaker has seen fewer failures in a row than the threshold, an open
-- or half-open one at least as many; a half-open one fewer successes than it wants.
abbrev pub Inv : CircuitBreakerConfig → ℕ → BreakerInternal → Type 0
Inv c n s = StateInv c n s.state s.consecutive_failures s.consecutive_successes

before-Inv :
    (c : CircuitBreakerConfig) (n now : ℕ) (st : State) (s : BreakerInternal)
    → IsConfig c
    → s.state ≡ st
    → StateInv c n st s.consecutive_failures s.consecutive_successes
    → Inv c (suc n) (decide_call c now st s).1
before-Inv c n now closed s k e v = rw e (omega arith)
before-Inv c n now half_open s k e v = rw e (omega arith)
before-Inv c n now (opened t) s k e v = ground arith

success-Inv :
    (c : CircuitBreakerConfig) (n : ℕ) (st : State) (s : BreakerInternal)
    → IsConfig c
    → s.state ≡ st
    → StateInv c n st s.consecutive_failures s.consecutive_successes
    → Inv c (suc n) (after_success c st s)
success-Inv c n closed s k e v = rw e (omega arith)
success-Inv c n half_open s k e v = ground arith
success-Inv c n (opened t) s k e v = rw e (omega arith)

transient-Inv :
    (c : CircuitBreakerConfig) (n now : ℕ) (st : State) (s : BreakerInternal)
    → IsConfig c
    → suc n < 2 ^ 32
    → s.state ≡ st
    → StateInv c n st s.consecutive_failures s.consecutive_successes
    → Inv c (suc n) (after_transient c now s)
transient-Inv c n now closed s k small e v = ground arith
transient-Inv c n now half_open s k small e v = ground arith
transient-Inv c n now (opened t) s k small e v = ground arith

Inv-mono :
    (c : CircuitBreakerConfig) (n : ℕ) (st : State) (f p : ℕ)
    → StateInv c n st f p
    → StateInv c (suc n) st f p
Inv-mono c n closed f p v = omega arith
Inv-mono c n half_open f p v = omega arith
Inv-mono c n (opened t) f p v = omega arith

after-Inv :
    {F : Foreign} (c : CircuitBreakerConfig) (n now : ℕ) (r : Result (StorageError F) (Unit {0}))
    (s : BreakerInternal)
    → IsConfig c
    → suc n < 2 ^ 32
    → Inv c n s
    → Inv c (suc n) (after_call c now r s)
unfolding after_call
after-Inv c n now (ok a) s k small v = success-Inv c n s.state s k refl v
after-Inv c n now (err e) s k small v =
    elim (is_transient e) as (λ b. Inv c (suc n) (if b then after_transient c now s else s)) [
      | true ↦ transient-Inv c n now s.state s k small refl v
      | false ↦ Inv-mono c n s.state s.consecutive_failures s.consecutive_successes v
    ]

step-Inv :
    {F : Foreign} (c : CircuitBreakerConfig) (n : ℕ) (e : Event F) (s : BreakerInternal)
    → IsConfig c
    → suc n < 2 ^ 32
    → Inv c n s
    → Inv c (suc n) (step c e s)
unfolding before_call
step-Inv c n (begins now) s k small v = before-Inv c n now s.state s k refl v
step-Inv c n (ends now r) s k small v = after-Inv c n now r s k small v

run-Inv_from :
    {F : Foreign} (c : CircuitBreakerConfig) (n : ℕ) (es : List (Event F)) (s : BreakerInternal)
    → IsConfig c
    → n + length es < 2 ^ 32
    → Inv c n s
    → Inv c (n + length es) (run c es s)
unfolding run
run-Inv_from c n [] s k small v = let e : n ≡ n + 0 = omega arith in subst (λ m. Inv c m s) e v
run-Inv_from c n (e ∷ es) s k small v =
    let i : suc n + length es ≡ n + suc (length es) = omega arith in
    subst (λ m. Inv c m (run c es (step c e s))) i
      (run-Inv_from c (suc n) es (step c e s) k (omega arith) (step-Inv c n e s k (omega arith) v))

-- Start a breaker with positive thresholds, and let fewer than 2 ^ 32 halves of calls happen, in
-- any order and at any times. While the breaker is closed its failure count is below the
-- threshold; while it is open or half open the count is at least the threshold; and while it is
-- half open its success count is below the number of probes. The failure count never passes the
-- number of events.
pub run-Inv :
    {F : Foreign} (c : CircuitBreakerConfig) (es : List (Event F))
    → IsConfig c
    → length es < 2 ^ 32
    → Inv c (length es) (run c es new_breaker)
run-Inv c es k small =
    let i : 0 + length es ≡ length es = omega arith in
    subst (λ m. Inv c m (run c es new_breaker)) i
      (run-Inv_from c 0 es new_breaker k (omega arith) (unfold new_breaker in omega arith))
