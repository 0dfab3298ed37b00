-- ===== src/Platform/Breaker.antt =====
-- backend/app/resilience/circuit_breaker.py. Times are in seconds; the wrapped function is a state
-- transformer over a world `W` that may raise, and it does not use the breaker itself.
pub mod Circuit
use ai_soc.Prelude.{
  ℕ, zero, suc, ◌+◌, ◌≤◌, ◌<◌, ◌≡◌, refl, Bool, true, false, ◌||◌, List, [], ◌∷◌, arith, ltb, leb,
  if◌then◌else◌, ◌⊎◌, inl, inr, Bool-cases,
}

pub data CircuitState : Type 0 where
  closed open_circuit half_open : CircuitState

pub record CircuitBreaker : Type 0 where
  pub failure_threshold : ℕ
  pub recovery_timeout : ℕ
  pub circuit : CircuitState
  pub failure_count : ℕ
  pub last_failure_time : ℕ
  pub total_calls : ℕ
  pub total_successes : ℕ
  pub total_failures : ℕ

-- the property `state`, which moves an open breaker on when its time is up
pub state : ℕ → CircuitBreaker → CircuitBreaker
state now b = elim b.circuit [
  | open_circuit ↦
      if leb (b.last_failure_time + b.recovery_timeout) now
      then record b { circuit = half_open }
      else b
  | _ ↦ b
]

pub on_success : CircuitBreaker → CircuitBreaker
on_success b = elim b.circuit [
  | half_open ↦ record b {
    total_successes = suc b.total_successes;
    circuit = closed;
    failure_count = 0;
  }
  | _ ↦ record b { total_successes = suc b.total_successes }
]

abbrev is_half_open : CircuitState → Bool
is_half_open half_open = true
is_half_open _ = false

pub on_failure : ℕ → CircuitBreaker → CircuitBreaker
on_failure now b =
    let counted = record b {
      total_failures = suc b.total_failures;
      failure_count = suc b.failure_count;
      last_failure_time = now;
    } in
    if leb b.failure_threshold (suc b.failure_count) || is_half_open b.circuit
    then record counted { circuit = open_circuit }
    else counted

pub data Reply (A E : Type 0) : Type 0 where
  fast_fail : Reply A E
  returned : A → Reply A E
  raised : E → Reply A E

module _ {W A E : Type 0} where
  abbrev finish : ℕ → CircuitBreaker → (E ⊎ A) × W → Reply A E × CircuitBreaker × W
  unfolding on_success on_failure
  finish ended b (inr a, w) = (returned a, on_success b, w)
  finish ended b (inl e, w) = (raised e, on_failure ended b, w)

  abbrev admit : ℕ → CircuitBreaker → (W → (E ⊎ A) × W) → W → Reply A E × CircuitBreaker × W
  admit ended b func w = elim b.circuit [
    | open_circuit ↦ (fast_fail, b, w)
    | _ ↦ finish ended (record b { total_calls = suc b.total_calls }) (func w)
  ]

  -- a call that starts at one time and, if the function raises, notes the failure at another
  pub call_sync : ℕ → ℕ → CircuitBreaker → (W → (E ⊎ A) × W) → W → Reply A E × CircuitBreaker × W
  unfolding state
  call_sync started ended b func w = admit ended (state started b) func w

  -- calls one after the other, each with its times and its function
  pub call_all :
      List (ℕ × ℕ × (W → (E ⊎ A) × W)) → CircuitBreaker → W → List (Reply A E) × CircuitBreaker × W
  unfolding call_sync
  call_all [] b w = ([], b, w)
  call_all ((started, ended, func) ∷ rest) b w =
      let (r, b₁, w₁) = call_sync started ended b func w in
      let (rs, b₂, w₂) = call_all rest b₁ w₁ in (r ∷ rs, b₂, w₂)
