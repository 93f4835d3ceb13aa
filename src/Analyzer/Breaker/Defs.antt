-- ===== src/Analyzer/Breaker/Defs.antt =====
-- internal/analyzer/circuit_breaker.go. Times and durations are nanoseconds. `Analyze` holds the
-- lock only at its two ends: `current_state` on the way in, and `record_success` or
-- `record_failure` on the way out. Each of these is one function, on the state that the lock guards.
use wormsign.Common.{
  ℕ, suc, String, Bool, true, false, not, ◌&&◌, List, [], ◌∷◌, Option, none, some, if◌then◌else◌,
  Result, ok, err,
}
use wormsign.Common.Int.{ℤ, pos, ltb_ℤ, ◌+ℤ◌}
use wormsign.Analyzer.Backend.{Analyzer, Call, to_primary, to_fallback}

pub data CircuitState : Type 0 where
  closed open_circuit half_open : CircuitState

pub record CircuitBreakerConfig : Type 0 where
  pub consecutive_failures : ℤ
  pub open_duration : ℤ

pub record CircuitBreaker : Type 0 where
  pub primary : Analyzer
  pub fallback : Analyzer
  pub cfg : CircuitBreakerConfig
  pub state : CircuitState
  pub failures : ℕ
  pub opened_at : ℕ

-- The errors of the constructor, in the order of its checks.
pub data ConfigError : Type 0 where
  no_primary no_fallback no_logger bad_failures bad_duration : ConfigError

-- A nil argument is `none`, and a nil logger `false`.
unfoldable pub new_circuit_breaker :
    Option Analyzer
    → Option Analyzer
    → CircuitBreakerConfig
    → Bool
    → Result ConfigError CircuitBreaker
new_circuit_breaker none f cfg logger = err no_primary
new_circuit_breaker (some p) none cfg logger = err no_fallback
new_circuit_breaker (some p) (some f) cfg false = err no_logger
new_circuit_breaker (some p) (some f) cfg true =
    if ltb_ℤ cfg.consecutive_failures (pos 1)
    then err bad_failures
    else if ltb_ℤ cfg.open_duration (pos 1)
    then err bad_duration
    else ok (record {
      primary = p;
      fallback = f;
      cfg = cfg;
      state = closed;
      failures = 0;
      opened_at = 0;
    })

unfoldable pub name : CircuitBreaker → String
name cb = cb.primary.name

abbrev pub is_closed : CircuitState → Bool
is_closed closed = true
is_closed _ = false

abbrev pub is_open : CircuitState → Bool
is_open open_circuit = true
is_open _ = false

abbrev pub is_half_open : CircuitState → Bool
is_half_open half_open = true
is_half_open _ = false

-- `now.Sub(openedAt) >= OpenDuration`, written as an order between times.
abbrev pub elapsed : CircuitBreaker → ℕ → Bool
elapsed cb now = not (ltb_ℤ (pos now) (pos cb.opened_at +ℤ cb.cfg.open_duration))

-- `currentStateLocked`: the state seen at time `now` is the state of the result.
unfoldable pub current_state : CircuitBreaker → ℕ → CircuitBreaker
current_state cb now =
    if is_open cb.state && elapsed cb now then record cb { state = half_open } else cb

unfoldable pub record_success : CircuitBreaker → CircuitBreaker
record_success cb = record cb { failures = 0; state = closed }

-- `recordFailure` at time `now`.
unfoldable pub record_failure : CircuitBreaker → ℕ → CircuitBreaker
record_failure cb now =
    let counted = record cb { failures = suc cb.failures } in
    if is_half_open cb.state
    then record counted { state = open_circuit; opened_at = now }
    else if not (ltb_ℤ (pos counted.failures) cb.cfg.consecutive_failures) && is_closed cb.state
    then record counted { state = open_circuit; opened_at = now }
    else counted

-- What a call of `Analyze` leaves: the breaker, the reply, and the backends that were called.
pub record Outcome (E R : Type 0) : Type 0 where
  pub breaker : CircuitBreaker
  pub reply : Result E R
  pub calls : List Call

module _ {E R : Type 0} where
  -- The switch of `Analyze` on the state that was seen, `primary` and `fallback` being the replies
  -- of the backends, and `later` the time at which a failure is recorded.
  unfoldable pub dispatch :
      CircuitState → CircuitBreaker → ℕ → Result E R → Result E R → Outcome E R
  dispatch open_circuit cb later primary fallback = record {
    breaker = cb;
    reply = fallback;
    calls = to_fallback ∷ [];
  }
  dispatch half_open cb later (ok report) fallback = record {
    breaker = record_success cb;
    reply = ok report;
    calls = to_primary ∷ [];
  }
  dispatch half_open cb later (err e) fallback = record {
    breaker = record_failure cb later;
    reply = fallback;
    calls = to_primary ∷ to_fallback ∷ [];
  }
  dispatch closed cb later (ok report) fallback = record {
    breaker = record_success cb;
    reply = ok report;
    calls = to_primary ∷ [];
  }
  dispatch closed cb later (err e) fallback = record {
    breaker = record_failure cb later;
    reply = err e;
    calls = to_primary ∷ [];
  }

  -- A call of `Analyze` that no other call interleaves with.
  unfoldable pub analyze : CircuitBreaker → (now later : ℕ) → Result E R → Result E R → Outcome E R
  unfolding dispatch
  analyze cb now later primary fallback =
      let seen = current_state cb now in dispatch seen.state seen later primary fallback

-- `Healthy`, the primary's own health being an argument.
unfoldable pub healthy : CircuitBreaker → ℕ → Bool → CircuitBreaker × Bool
healthy cb now primary_healthy =
    let seen = current_state cb now in (seen, if is_open seen.state then false else primary_healthy)
