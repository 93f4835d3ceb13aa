-- ===== src/Analyzer/Breaker/Shielded.antt =====
-- internal/analyzer/circuit_breaker.go: the requests that come after the circuit has opened.
use wormsign.Common.{
  ℕ, suc, ◌+◌, ◌<◌, ◌≤◌, ◌≡◌, refl, ap, subst, sym, ◌∙◌, List, [], ◌∷◌, map, All, length, Result,
  ok, err, arith,
}
use wormsign.Common.Int.{pos}
use wormsign.Analyzer.Backend.{Call, to_primary, to_fallback}
use wormsign.Analyzer.Breaker.Defs.{
  CircuitState, closed, open_circuit, half_open, CircuitBreaker, current_state, record_success,
  record_failure, dispatch, analyze, Outcome,
}
use wormsign.Analyzer.Breaker.Sequence.{Failed, fail_all, fail_all_trips}

-- A request: the time at which it reads the state, the time at which a failure would be recorded, and
-- how the backends would answer.
pub record Request (E R : Type 0) : Type 0 where
  pub now : ℕ
  pub later : ℕ
  pub primary : Result E R
  pub fallback : Result E R

module _ {E R : Type 0} where
  -- Requests that are served one after the other, and what each call leaves.
  pub serve : CircuitBreaker → List (Request E R) → List (Outcome E R)
  serve cb [] = []
  serve cb (q ∷ qs) =
      let o = analyze cb q.now q.later q.primary q.fallback in o ∷ serve o.breaker qs

  serve_one :
      (cb : CircuitBreaker) (d : ℕ) (q : Request E R)
      → cb.state ≡ open_circuit
      → cb.cfg.open_duration ≡ pos d
      → q.now < cb.opened_at + d
      → analyze cb q.now q.later q.primary q.fallback
        ≡ record { breaker = cb; reply = q.fallback; calls = to_fallback ∷ [] }
  unfolding analyze current_state
  serve_one cb d q e c h = ground arith

  serve_open :
      (cb : CircuitBreaker) (d : ℕ) (qs : List (Request E R))
      → cb.state ≡ open_circuit
      → cb.cfg.open_duration ≡ pos d
      → All (λ q. q.now < cb.opened_at + d) qs
      → serve cb qs
        ≡ map (λ q. record { breaker = cb; reply = q.fallback; calls = to_fallback ∷ [] }) qs
  unfolding serve
  serve_open cb d [] e c h = refl
  serve_open cb d (q ∷ qs) e c (h, hs) =
      let left : Outcome E R = record {
        breaker = cb;
        reply = q.fallback;
        calls = to_fallback ∷ [];
      } in
      rw (serve_one cb d q e c h) (ap (λ os. left ∷ os) (serve_open cb d qs e c hs))

  trip_time :
      (cb : CircuitBreaker) (now later : ℕ) (e : E) (f : Result E R)
      → cb.state ≡ closed
      → (analyze cb now later (err e) f).breaker.state ≡ open_circuit
      → (analyze cb now later (err e) f).breaker.opened_at ≡ later
  unfolding analyze current_state record_failure
  trip_time cb now later e f s t = ground arith

  dispatch_cfg :
      (s : CircuitState) (cb : CircuitBreaker) (later : ℕ) (primary fallback : Result E R)
      → (dispatch s cb later primary fallback).breaker.cfg ≡ cb.cfg
  unfolding dispatch record_success record_failure
  dispatch_cfg open_circuit cb later p f = refl
  dispatch_cfg half_open cb later (ok r) f = refl
  dispatch_cfg half_open cb later (err x) f = ground arith
  dispatch_cfg closed cb later (ok r) f = refl
  dispatch_cfg closed cb later (err x) f = ground arith

  analyze_cfg :
      (cb : CircuitBreaker) (now later : ℕ) (primary fallback : Result E R)
      → (analyze cb now later primary fallback).breaker.cfg ≡ cb.cfg
  unfolding analyze current_state
  analyze_cfg cb now later p f =
      dispatch_cfg (current_state cb now).state (current_state cb now) later p f ∙ ground arith

  fail_all_cfg : (cb : CircuitBreaker) (fs : List (Failed E R)) → (fail_all cb fs).cfg ≡ cb.cfg
  unfolding fail_all
  fail_all_cfg cb [] = refl
  fail_all_cfg cb ((now, later, e, f) ∷ fs) =
      fail_all_cfg (analyze cb now later (err e) f).breaker fs ∙ analyze_cfg cb now later (err e) f

  calls_primary :
      (cb : CircuitBreaker) (d now later : ℕ) (primary fallback : Result E R)
      → cb.state ≡ open_circuit
      → cb.cfg.open_duration ≡ pos d
      → cb.opened_at + d ≤ now
      → (others : List Call) × ((analyze cb now later primary fallback).calls ≡ to_primary ∷ others)
  unfolding analyze current_state
  calls_primary cb d now later (ok r) f e c h = ([], ground arith)
  calls_primary cb d now later (err x) f e c h = (to_fallback ∷ [], ground arith)

  -- Let a closed breaker with no failure counted, a positive threshold and an open duration that is not
  -- negative see as many failures in a row as the threshold, the last recorded at the time `later`.
  -- Then any requests, one after the other, that come before the open duration from `later` has elapsed
  -- go to the fallback alone and get its reply, whatever the primary would answer, and each leaves the
  -- breaker as it was; and a request that comes later is sent to the primary first.
  pub serve_shielded :
      (cb : CircuitBreaker) (k d : ℕ) (fs : List (Failed E R)) (now later : ℕ) (e : E)
      (f : Result E R) (qs : List (Request E R)) (probe : Request E R)
      → cb.state ≡ closed
      → cb.failures ≡ 0
      → cb.cfg.consecutive_failures ≡ pos (suc k)
      → cb.cfg.open_duration ≡ pos d
      → length fs ≡ k
      → All (λ q. q.now < later + d) qs
      → later + d ≤ probe.now
      → let tripped = (analyze (fail_all cb fs) now later (err e) f).breaker in
        (serve tripped qs
          ≡ map
              (λ q. record { breaker = tripped; reply = q.fallback; calls = to_fallback ∷ [] })
              qs)
        × ((others : List Call) × ((analyze tripped probe.now probe.later probe.primary
                probe.fallback).calls
              ≡ to_primary ∷ others))
  serve_shielded cb k d fs now later e f qs probe s z c w n early late =
      let (s', n', opened) = fail_all_trips cb k fs now later e f s z c n in
      let since = trip_time (fail_all cb fs) now later e f s' opened in
      let tripped = (analyze (fail_all cb fs) now later (err e) f).breaker in
      let lasts : tripped.cfg.open_duration ≡ pos d =
        ap (λ g. g.open_duration)
          (analyze_cfg (fail_all cb fs) now later (err e) f ∙ fail_all_cfg cb fs)
        ∙ w in
      (
        serve_open tripped d qs opened lasts
            (subst (λ t. All (λ q. q.now < t + d) qs) (sym since) early),
        calls_primary tripped d probe.now probe.later probe.primary probe.fallback opened lasts
            (omega (arith, since, late)),
      )
