-- ===== src/Analyzer/Breaker/Tests.antt =====
-- A breaker that opens after two failures, for a minute.
use wormsign.Common.{ℕ, ◌≡◌, refl, String, List, [], ◌∷◌, map, ok, err, arith}
use wormsign.Common.Int.{pos}
use wormsign.Analyzer.Backend.{Call, to_primary, to_fallback}
use wormsign.Analyzer.Breaker.Defs.{
  CircuitBreaker, CircuitBreakerConfig, closed, open_circuit, current_state, analyze,
}
use wormsign.Analyzer.Breaker.Sequence.{
  IsConsistent, Moves, fail_all, analyze-Moves, analyze-probe, fail_all_trips,
}
use wormsign.Analyzer.Breaker.Shielded.{Request, serve, serve_shielded}
use wormsign.Analyzer.Breaker.Concurrent.{
  System, Step, Reach, here, next, begins, begin, begin_all, fail_next, fail_waiting,
  Reach-IsConsistent, straggler_closes,
}

abbrev two_failures : CircuitBreakerConfig
two_failures = record { consecutive_failures = pos 2; open_duration = pos 60 }

abbrev fresh : CircuitBreaker
fresh = record {
  primary = record { name = "claude" };
  fallback = record { name = "noop" };
  cfg = two_failures;
  state = closed;
  failures = 0;
  opened_at = 0;
}

abbrev tripped : CircuitBreaker
tripped = record fresh { state = open_circuit; failures = 2; opened_at = 100 }

fresh-IsConsistent : IsConsistent fresh
fresh-IsConsistent = ground arith

analyze-Moves_example :
    Moves open_circuit (current_state tripped 200).state
    × Moves
        (current_state tripped 200).state
        (analyze {E = String} {R = ℕ} tripped 200 201 (ok 1) (ok 0)).breaker.state
analyze-Moves_example = analyze-Moves {E = String} {R = ℕ} tripped 200 201 (ok 1) (ok 0)

abbrev while_open : List (Request String ℕ)
while_open =
    record { now = 20; later = 21; primary = ok 1; fallback = ok 5 }
    ∷ record { now = 63; later = 64; primary = err "timeout"; fallback = ok 6 }
    ∷ []

serve_shielded_example :
    let tripped_at_4 =
      (analyze {E = String} {R = ℕ}
        (fail_all {E = String} {R = ℕ} fresh ((1, 2, "timeout", ok 0) ∷ []))
        3
        4
        (err "timeout")
        (ok 0)).breaker in
    (serve tripped_at_4 while_open
      ≡ map
          (λ q. record { breaker = tripped_at_4; reply = q.fallback; calls = to_fallback ∷ [] })
          while_open)
    × ((others : List Call) × ((analyze {E = String} {R = ℕ} tripped_at_4 64 65 (ok 1) (ok 0)).calls
          ≡ to_primary ∷ others))
serve_shielded_example =
    serve_shielded {E = String} {R = ℕ} fresh 1 60 ((1, 2, "timeout", ok 0) ∷ []) 3 4 "timeout"
      (ok 0) while_open (record { now = 64; later = 65; primary = ok 1; fallback = ok 0 }) refl refl
      refl refl refl (omega arith, (omega arith, tt)) (omega arith)

analyze-probe_example :
    (analyze {E = String} {R = ℕ} tripped 160 161 (ok 1) (ok 0) ≡ record {
      breaker = record tripped { state = closed; failures = 0 };
      reply = ok 1;
      calls = to_primary ∷ [];
    })
    × (analyze {E = String} {R = ℕ} tripped 160 161 (err "timeout") (ok 0) ≡ record {
      breaker = record tripped { state = open_circuit; failures = 3; opened_at = 161 };
      reply = ok 0;
      calls = to_primary ∷ to_fallback ∷ [];
    })
analyze-probe_example =
    analyze-probe {E = String} {R = ℕ} tripped 160 161 1 "timeout" (ok 0) refl refl

fail_all_trips_example :
    let once = fail_all {E = String} {R = ℕ} fresh ((1, 2, "timeout", ok 0) ∷ []) in
    (once.state ≡ closed)
    × (once.failures ≡ 1)
    × ((analyze {E = String} {R = ℕ} once 3 4 (err "timeout") (ok 0)).breaker.state ≡ open_circuit)
fail_all_trips_example =
    fail_all_trips {E = String} {R = ℕ} fresh 1 ((1, 2, "timeout", ok 0) ∷ []) 3 4 "timeout" (ok 0)
      refl refl refl refl

Reach-IsConsistent_example :
    IsConsistent (begin (record { breaker = fresh; waiting = 0 }) 5).breaker
Reach-IsConsistent_example =
    Reach-IsConsistent {s = record { breaker = fresh; waiting = 0 }} fresh-IsConsistent
      (next here (begins 5))

straggler_closes_example :
    let sent = begin_all (record { breaker = fresh; waiting = 0 }) (1 ∷ 2 ∷ 3 ∷ []) in
    let t = fail_next (fail_waiting sent (4 ∷ [])) 5 in
    (sent.breaker ≡ fresh)
    × (t.breaker.state ≡ open_circuit)
    × (t.breaker.opened_at ≡ 5)
    × (t.waiting ≡ 1)
    × Reach (record { breaker = fresh; waiting = 0 }) t
    × ((u : System) × Step t u
        × (u.waiting ≡ 0)
        × (u.breaker.state ≡ closed)
        × (¬ Moves t.breaker.state u.breaker.state))
straggler_closes_example =
    straggler_closes (record { breaker = fresh; waiting = 0 }) 1 5 (1 ∷ 2 ∷ 3 ∷ []) (4 ∷ []) refl
      refl refl refl refl refl
