-- ===== src/Platform/Breaker/Circuit.antt =====
-- The counters of a circuit breaker, and what it does while it is open (circuit_breaker.py).
use ai_soc.Prelude.{
  ℕ, suc, ◌+◌, ◌≤◌, ◌<◌, ◌≡◌, refl, false, List, [], ◌∷◌, arith, leb, ap, ◌⊎◌, inl, inr, Bool-cases,
  All, map, leb→le,
}
use ai_soc.Platform.Breaker.{
  CircuitState, closed, open_circuit, half_open, CircuitBreaker, state, on_success, on_failure,
  fast_fail, finish, admit, call_sync, call_all,
}

-- A closed circuit is below its threshold, any other one has reached it.
abbrev pub Tripped : CircuitState → ℕ → ℕ → Type 0
Tripped closed threshold count = count < threshold
Tripped open_circuit threshold count = threshold ≤ count
Tripped half_open threshold count = threshold ≤ count

pub record IsSound (b : CircuitBreaker) : Type 0 where
  pub positive : 0 < b.failure_threshold
  pub accounted : b.total_successes + b.total_failures ≡ b.total_calls
  pub counted : b.failure_count ≤ b.total_failures
  pub tripped : Tripped b.circuit b.failure_threshold b.failure_count

circuit-cases : (c : CircuitState) → (c ≡ closed) ⊎ ((c ≡ open_circuit) ⊎ (c ≡ half_open))
circuit-cases closed = inl refl
circuit-cases open_circuit = inr (inl refl)
circuit-cases half_open = inr (inr refl)

state-IsSound : (now : ℕ) (b : CircuitBreaker) → IsSound b → IsSound (state now b)
unfolding state
state-IsSound now b h = elim (circuit-cases b.circuit) [
  | inl e ↦ let same = rw e at h in rw e same
  | inr (inr e) ↦ let same = rw e at h in rw e same
  | inr (inl e) ↦ elim (Bool-cases (leb (b.last_failure_time + b.recovery_timeout) now)) [
    | inr early ↦ let same = rw e at h in rw (e, early) same
    | inl due ↦
        rw (e, due)
          (record {
            positive = h.positive;
            accounted = h.accounted;
            counted = h.counted;
            tripped = rw e at h.tripped;
          })
  ]
]

-- a call that has been counted and has not ended
pub record IsRunning (b : CircuitBreaker) : Type 0 where
  pub positive : 0 < b.failure_threshold
  pub accounted : suc (b.total_successes + b.total_failures) ≡ b.total_calls
  pub counted : b.failure_count ≤ b.total_failures
  pub tripped : Tripped b.circuit b.failure_threshold b.failure_count

on_success-IsSound : (b : CircuitBreaker) → IsRunning b → IsSound (on_success b)
unfolding on_success
on_success-IsSound b h = elim (circuit-cases b.circuit) [
  | inl e ↦ rw e (record {
    positive = h.positive;
    accounted = omega (arith, h.accounted);
    counted = h.counted;
    tripped = rw e at h.tripped;
  })
  | inr (inl e) ↦ rw e (record {
    positive = h.positive;
    accounted = omega (arith, h.accounted);
    counted = h.counted;
    tripped = rw e at h.tripped;
  })
  | inr (inr e) ↦ rw e (record {
    positive = h.positive;
    accounted = omega (arith, h.accounted);
    counted = omega arith;
    tripped = h.positive;
  })
]

-- An open circuit that has just counted a failure.
on_failure-reached :
    (now : ℕ) (b : CircuitBreaker)
    → IsRunning b
    → b.failure_threshold ≤ suc b.failure_count
    → IsSound (record b {
      total_failures = suc b.total_failures;
      failure_count = suc b.failure_count;
      last_failure_time = now;
      circuit = open_circuit;
    })
on_failure-reached now b h reached = record {
  positive = h.positive;
  accounted = omega (arith, h.accounted);
  counted = omega (arith, h.counted);
  tripped = reached;
}

below_next : (threshold count : ℕ) → leb threshold (suc count) ≡ false → suc count < threshold
below_next threshold count h = ground arith

not_below : (threshold count : ℕ) → leb threshold (suc count) ≡ false → threshold ≤ count → ⊥
not_below threshold count h k = ground arith

on_failure-IsSound : (now : ℕ) (b : CircuitBreaker) → IsRunning b → IsSound (on_failure now b)
unfolding on_failure
on_failure-IsSound now b h = elim (Bool-cases (leb b.failure_threshold (suc b.failure_count))) [
  | inl reached ↦
      rw reached
        (on_failure-reached now b h (leb→le b.failure_threshold (suc b.failure_count) reached))
  | inr below ↦ elim (circuit-cases b.circuit) [
    | inl e ↦
        rw (below, e)
          (record {
            positive = h.positive;
            accounted = omega (arith, h.accounted);
            counted = omega (arith, h.counted);
            tripped = below_next b.failure_threshold b.failure_count below;
          })
    | inr (inl e) ↦
        let reached : b.failure_threshold ≤ b.failure_count = rw e at h.tripped in
        elim (not_below b.failure_threshold b.failure_count below reached) [ ]
    | inr (inr e) ↦
        let reached : b.failure_threshold ≤ b.failure_count = rw e at h.tripped in
        elim (not_below b.failure_threshold b.failure_count below reached) [ ]
  ]
]

started-IsRunning :
    (b : CircuitBreaker) → IsSound b → IsRunning (record b { total_calls = suc b.total_calls })
started-IsRunning b h = record {
  positive = h.positive;
  accounted = ap suc h.accounted;
  counted = h.counted;
  tripped = h.tripped;
}

module _ {W A E : Type 0} where
  finish-IsSound :
      (ended : ℕ) (b : CircuitBreaker) (out : (E ⊎ A) × W)
      → IsRunning b
      → IsSound (finish ended b out).1
  unfolding finish on_failure
  finish-IsSound ended b (inr a, w) h = on_success-IsSound b h
  finish-IsSound ended b (inl e, w) h = on_failure-IsSound ended b h

  admit-IsSound :
      (ended : ℕ) (b : CircuitBreaker) (func : W → (E ⊎ A) × W) (w : W)
      → IsSound b
      → IsSound (admit ended b func w).1
  admit-IsSound ended b func w h =
      let same =
        finish-IsSound ended (record b { total_calls = suc b.total_calls }) (func w)
          (started-IsRunning b h) in
      elim (circuit-cases b.circuit) [
        | inl e ↦ let run = rw e at same in rw e run
        | inr (inl e) ↦ let still = rw e at h in rw e still
        | inr (inr e) ↦ let run = rw e at same in rw e run
      ]

  call_sync-IsSound :
      (started ended : ℕ) (b : CircuitBreaker) (func : W → (E ⊎ A) × W) (w : W)
      → IsSound b
      → IsSound (call_sync started ended b func w).1
  unfolding call_sync
  call_sync-IsSound started ended b func w h =
      admit-IsSound ended (state started b) func w (state-IsSound started b h)

  -- Through any calls, whatever the functions do: a breaker's totals add up, a closed circuit has
  -- counted fewer failures than its threshold and a circuit that is not closed at least as many.
  pub call_all-IsSound :
      (calls : List (ℕ × ℕ × (W → (E ⊎ A) × W))) (b : CircuitBreaker) (w : W)
      → IsSound b
      → IsSound (call_all calls b w).1
  unfolding call_all
  call_all-IsSound [] b w h = h
  call_all-IsSound ((started, ended, func) ∷ rest) b w h =
      call_all-IsSound rest (call_sync started ended b func w).1
        (call_sync started ended b func w).2 (call_sync-IsSound started ended b func w h)

  call_sync-fails_fast :
      (started ended : ℕ) (b : CircuitBreaker) (func : W → (E ⊎ A) × W) (w : W)
      → b.circuit ≡ open_circuit
      → leb (b.last_failure_time + b.recovery_timeout) started ≡ false
      → call_sync started ended b func w ≡ (fast_fail, b, w)
  unfolding call_sync state
  call_sync-fails_fast started ended b func w e not_due = rw (e, not_due) refl

  -- An open circuit isolates the function: any calls that start before the recovery time is up
  -- leave the world and the breaker as they are, and every one of them fails fast.
  pub call_all-isolates :
      (calls : List (ℕ × ℕ × (W → (E ⊎ A) × W))) (b : CircuitBreaker) (w : W)
      → b.circuit ≡ open_circuit
      → All (λ c. c.0 < b.last_failure_time + b.recovery_timeout) calls
      → call_all calls b w ≡ (map (λ c. fast_fail) calls, b, w)
  unfolding call_all
  call_all-isolates [] b w e h = refl
  call_all-isolates ((started, ended, func) ∷ rest) b w e (early, h) =
      let not_due : leb (b.last_failure_time + b.recovery_timeout) started ≡ false =
        ground (arith, early) in
      rw (call_sync-fails_fast started ended b func w e not_due, call_all-isolates rest b w e h)
        refl
