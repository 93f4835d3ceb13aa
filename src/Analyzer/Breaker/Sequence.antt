-- ===== src/Analyzer/Breaker/Sequence.antt =====
-- internal/analyzer/circuit_breaker.go: calls of `Analyze` one after the other.
use wormsign.Common.{
  ℕ, suc, ◌+◌, ◌<◌, ◌≡◌, refl, ◌≢◌, ◌⊎◌, inl, Bool, true, false, List, [], ◌∷◌, Option, length,
  Result, ok, err, arith,
}
use wormsign.Common.Int.{pos, ltb_ℤ}
use wormsign.Analyzer.Backend.{Analyzer, to_primary, to_fallback}
use wormsign.Analyzer.Breaker.Defs.{
  CircuitState, closed, open_circuit, half_open, CircuitBreakerConfig, CircuitBreaker,
  new_circuit_breaker, elapsed, current_state, record_success, record_failure, dispatch, analyze,
}

-- Between calls the circuit is closed exactly while the failures in a row are below the threshold.
pub record IsConsistent (cb : CircuitBreaker) : Type 0 where
  pub threshold_positive : ltb_ℤ (pos 0) cb.cfg.consecutive_failures ≡ true
  pub closed_below : cb.state ≡ closed → ltb_ℤ (pos cb.failures) cb.cfg.consecutive_failures ≡ true
  pub tripped_above :
      cb.state ≢ closed → ltb_ℤ (pos cb.failures) cb.cfg.consecutive_failures ≡ false

pub new-IsConsistent :
    (p f : Option Analyzer) (cfg : CircuitBreakerConfig) (logger : Bool) (cb : CircuitBreaker)
    → new_circuit_breaker p f cfg logger ≡ ok cb
    → IsConsistent cb
unfolding new_circuit_breaker
new-IsConsistent p f cfg logger cb h = ground arith

pub current_state-IsConsistent :
    (cb : CircuitBreaker) (now : ℕ) → IsConsistent cb → IsConsistent (current_state cb now)
unfolding current_state
current_state-IsConsistent cb now v = ground arith

pub record_success-IsConsistent :
    (cb : CircuitBreaker) → IsConsistent cb → IsConsistent (record_success cb)
unfolding record_success
record_success-IsConsistent cb v = ground arith

pub record_failure-IsConsistent :
    (cb : CircuitBreaker) (now : ℕ) → IsConsistent cb → IsConsistent (record_failure cb now)
unfolding record_failure
record_failure-IsConsistent cb now v = ground arith

-- The edges of the state diagram at the head of the file.
pub data Edge : CircuitState → CircuitState → Type 0 where
  trip : Edge closed open_circuit
  cool_down : Edge open_circuit half_open
  recover : Edge half_open closed
  relapse : Edge half_open open_circuit

pub ruleset edges = (trip, cool_down, recover, relapse)

-- The state stays, or follows one edge.
abbrev pub Moves : CircuitState → CircuitState → Type 0
Moves s t = (s ≡ t) ⊎ Edge s t

current_state-Moves : (cb : CircuitBreaker) (now : ℕ) → Moves cb.state (current_state cb now).state
unfolding current_state
current_state-Moves cb now = grind (arith, edges)

-- Requests that fail one after the other: for each, the two times, the error and the fallback's
-- reply.
abbrev pub Failed : Type 0 → Type 0 → Type 0
Failed E R = ℕ × ℕ × E × Result E R

module _ {E R : Type 0} where
  dispatch-Moves :
      (s : CircuitState) (cb : CircuitBreaker) (later : ℕ) (primary fallback : Result E R)
      → cb.state ≡ s
      → Moves cb.state (dispatch s cb later primary fallback).breaker.state
  unfolding dispatch record_success record_failure
  dispatch-Moves open_circuit cb later p f e = inl refl
  dispatch-Moves half_open cb later (ok r) f e = grind (arith, edges)
  dispatch-Moves half_open cb later (err x) f e = grind (arith, edges)
  dispatch-Moves closed cb later (ok r) f e = grind (arith, edges)
  dispatch-Moves closed cb later (err x) f e = grind (arith, edges)

  -- A call of `Analyze` that runs alone follows the state diagram: on the way in the state stays or
  -- takes one edge, and so does it again on the way out.
  pub analyze-Moves :
      (cb : CircuitBreaker) (now later : ℕ) (primary fallback : Result E R)
      → Moves cb.state (current_state cb now).state
        × Moves (current_state cb now).state (analyze cb now later primary fallback).breaker.state
  unfolding analyze
  analyze-Moves cb now later p f =
      (current_state-Moves cb now, dispatch-Moves _ (current_state cb now) later p f refl)

  -- Once the open duration has elapsed, the next request probes the primary. If that succeeds, the
  -- circuit is closed with no failure counted and its report is returned; if it fails, the circuit is
  -- open again from the time of the failure, and the fallback's reply is returned.
  pub analyze-probe :
      (cb : CircuitBreaker) (now later : ℕ) (report : R) (e : E) (fallback : Result E R)
      → cb.state ≡ open_circuit
      → elapsed cb now ≡ true
      → (analyze cb now later (ok report) fallback ≡ record {
        breaker = record cb { state = closed; failures = 0 };
        reply = ok report;
        calls = to_primary ∷ [];
      })
        × (analyze cb now later (err e) fallback ≡ record {
          breaker = record cb {
            state = open_circuit;
            failures = suc cb.failures;
            opened_at = later;
          };
          reply = fallback;
          calls = to_primary ∷ to_fallback ∷ [];
        })
  unfolding analyze current_state record_success record_failure
  analyze-probe cb now later r x f e h = ground arith

  unfoldable pub fail_all : CircuitBreaker → List (Failed E R) → CircuitBreaker
  fail_all cb [] = cb
  fail_all cb ((now, later, e, fallback) ∷ rest) =
      fail_all (analyze cb now later (err e) fallback).breaker rest

  fail_once :
      (cb : CircuitBreaker) (now later : ℕ) (e : E) (f : Result E R) (k : ℕ)
      → cb.state ≡ closed
      → cb.cfg.consecutive_failures ≡ pos k
      → let next = (analyze cb now later (err e) f).breaker in
        (next.failures ≡ suc cb.failures)
        × (next.cfg.consecutive_failures ≡ pos k)
        × (suc cb.failures < k → next.state ≡ closed)
        × (suc cb.failures ≡ k → next.state ≡ open_circuit)
  unfolding analyze current_state record_failure
  fail_once cb now later e f k s c = ground arith

  fail_all_closed :
      (cb : CircuitBreaker) (k : ℕ) (fs : List (Failed E R))
      → cb.state ≡ closed
      → cb.cfg.consecutive_failures ≡ pos k
      → cb.failures + length fs < k
      → ((fail_all cb fs).state ≡ closed)
        × ((fail_all cb fs).failures ≡ cb.failures + length fs)
        × ((fail_all cb fs).cfg.consecutive_failures ≡ pos k)
  unfolding fail_all
  fail_all_closed cb k [] s c h = (s, omega arith, c)
  fail_all_closed cb k ((now, later, e, f) ∷ fs) s c h =
      let (n, c', below, at) = fail_once cb now later e f k s c in
      let (s', n', c'') =
        fail_all_closed (analyze cb now later (err e) f).breaker k fs (below (omega arith)) c'
          (omega arith) in
      (s', omega arith, c'')

  -- A closed circuit with no failure counted stays closed through fewer failures in a row than the
  -- threshold, counting each, and is open after exactly as many as the threshold.
  pub fail_all_trips :
      (cb : CircuitBreaker) (k : ℕ) (fs : List (Failed E R)) (now later : ℕ) (e : E)
      (f : Result E R)
      → cb.state ≡ closed
      → cb.failures ≡ 0
      → cb.cfg.consecutive_failures ≡ pos (suc k)
      → length fs ≡ k
      → ((fail_all cb fs).state ≡ closed)
        × ((fail_all cb fs).failures ≡ k)
        × ((analyze (fail_all cb fs) now later (err e) f).breaker.state ≡ open_circuit)
  fail_all_trips cb k fs now later e f s z c n =
      let (s', n', c') = fail_all_closed cb (suc k) fs s c (omega arith) in
      let (_, _, _, trips) = fail_once (fail_all cb fs) now later e f (suc k) s' c' in
      (s', omega arith, trips (omega arith))
