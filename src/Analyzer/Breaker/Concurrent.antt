-- ===== src/Analyzer/Breaker/Concurrent.antt =====
-- internal/analyzer/circuit_breaker.go: calls of `Analyze` that interleave. A call holds the lock
-- when it reads the state, and again when it records how the primary answered; between the two any
-- other call may take its steps. `Healthy` and `State` take the lock once, to read the state.
use wormsign.Common.{
  ℕ, zero, suc, ◌+◌, ◌<◌, ◌≡◌, refl, inl, inr, true, false, List, [], ◌∷◌, length, arith, subst,
  sym,
}
use wormsign.Common.Int.{pos}
use wormsign.Analyzer.Breaker.Defs.{
  closed, open_circuit, half_open, CircuitBreaker, current_state, record_success, record_failure,
  is_open,
}
use wormsign.Analyzer.Breaker.Sequence.{
  IsConsistent, current_state-IsConsistent, record_success-IsConsistent,
  record_failure-IsConsistent, Moves,
}

-- The breaker, and how many requests wait for the primary's answer.
pub record System : Type 0 where
  pub breaker : CircuitBreaker
  pub waiting : ℕ

-- The locked part at the start of a call: only an open circuit keeps the request from the primary.
unfoldable pub begin : System → ℕ → System
unfolding current_state
begin s now =
    let cb = current_state s.breaker now in
    elim (is_open cb.state) [
      | true ↦ record s { breaker = cb }
      | false ↦ record { breaker = cb; waiting = suc s.waiting }
    ]

-- One hold of the lock: by `Analyze` on its way in or on its way out, or by `Healthy` or `State`.
pub data Step (s : System) : System → Type 0 where
  begins : (now : ℕ) → Step s (begin s now)
  succeeds :
      (n : ℕ)
      → s.waiting ≡ suc n
      → Step s (record { breaker = record_success s.breaker; waiting = n })
  fails :
      (n now : ℕ)
      → s.waiting ≡ suc n
      → Step s (record { breaker = record_failure s.breaker now; waiting = n })
  peeks : (now : ℕ) → Step s (record s { breaker = current_state s.breaker now })

pub data Reach (s : System) : System → Type 0 where
  here : Reach s s
  next : {t u : System} → Reach s t → Step t u → Reach s u

begin-IsConsistent :
    (s : System) (now : ℕ) → IsConsistent s.breaker → IsConsistent (begin s now).breaker
unfolding begin
begin-IsConsistent s now v = grind (arith, current_state-IsConsistent s.breaker now v)

-- However the calls interleave, the circuit stays closed exactly while the failures in a row are
-- below the threshold.
pub Reach-IsConsistent :
    {s t : System} → IsConsistent s.breaker → Reach s t → IsConsistent t.breaker
Reach-IsConsistent v here = v
Reach-IsConsistent v (next {t = t} r (begins now)) =
    begin-IsConsistent t now (Reach-IsConsistent v r)
Reach-IsConsistent v (next {t = t} r (succeeds n e)) =
    record_success-IsConsistent t.breaker (Reach-IsConsistent v r)
Reach-IsConsistent v (next {t = t} r (fails n now e)) =
    record_failure-IsConsistent t.breaker now (Reach-IsConsistent v r)
Reach-IsConsistent v (next {t = t} r (peeks now)) =
    current_state-IsConsistent t.breaker now (Reach-IsConsistent v r)

not-Moves : ¬ Moves open_circuit closed
not-Moves (inl e) = cc
not-Moves (inr e) = elim e [ ]

-- A waiting request that succeeds while the circuit is open.
straggler_answered :
    (s : System) (n : ℕ)
    → s.breaker.state ≡ open_circuit
    → s.waiting ≡ suc n
    → (t : System) × Step s t
      × (t.waiting ≡ n)
      × (t.breaker.state ≡ closed)
      × (¬ Moves s.breaker.state t.breaker.state)
unfolding record_success
straggler_answered s n e w = (_, succeeds n w, refl, refl, rw e not-Moves)

-- Requests that arrive one after the other, at these times, before any is answered.
pub begin_all : System → List ℕ → System
begin_all s [] = s
begin_all s (now ∷ times) = begin_all (begin s now) times

-- One of the requests that wait fails at the time `now`.
pub fail_next : System → ℕ → System
fail_next s now = elim s.waiting [
  | zero ↦ s
  | suc n ↦ record { breaker = record_failure s.breaker now; waiting = n }
]

pub fail_waiting : System → List ℕ → System
fail_waiting s [] = s
fail_waiting s (now ∷ times) = fail_waiting (fail_next s now) times

begin_all-Reach :
    {a : System} (s : System) (times : List ℕ) → Reach a s → Reach a (begin_all s times)
unfolding begin_all
begin_all-Reach s [] r = r
begin_all-Reach s (now ∷ times) r = begin_all-Reach (begin s now) times (next r (begins now))

fail_next-Reach : {a : System} (s : System) (now : ℕ) → Reach a s → Reach a (fail_next s now)
unfolding fail_next
fail_next-Reach {a = a} s now r = go s.waiting refl
  where
    go :
        (w : ℕ)
        → s.waiting ≡ w
        → Reach a (elim w [
          | zero ↦ s
          | suc n ↦ record { breaker = record_failure s.breaker now; waiting = n }
        ])
    go zero e = r
    go (suc n) e = next r (fails n now e)

fail_waiting-Reach :
    {a : System} (s : System) (times : List ℕ) → Reach a s → Reach a (fail_waiting s times)
unfolding fail_waiting
fail_waiting-Reach s [] r = r
fail_waiting-Reach s (now ∷ times) r =
    fail_waiting-Reach (fail_next s now) times (fail_next-Reach s now r)

begin_closed :
    (s : System) (now : ℕ)
    → s.breaker.state ≡ closed
    → (begin s now ≡ record s { waiting = suc s.waiting })
unfolding begin current_state
begin_closed s now e = ground arith

begin_all_closed :
    (s : System) (times : List ℕ)
    → s.breaker.state ≡ closed
    → ((begin_all s times).breaker ≡ s.breaker)
      × ((begin_all s times).waiting ≡ s.waiting + length times)
unfolding begin_all
begin_all_closed s [] e = (refl, omega arith)
begin_all_closed s (now ∷ times) e =
    let (same, count) = begin_all_closed (record s { waiting = suc s.waiting }) times e in
    subst
      (λ t.
        ((begin_all t times).breaker ≡ s.breaker)
        × ((begin_all t times).waiting ≡ s.waiting + suc (length times)))
      (sym (begin_closed s now e)) (same, omega (arith, count))

-- The breaker and the count after one of `suc n` waiting requests has failed below the threshold or
-- at it.
fail_next_counts :
    (s : System) (now n k : ℕ)
    → s.waiting ≡ suc n
    → s.breaker.state ≡ closed
    → s.breaker.cfg.consecutive_failures ≡ pos k
    → let t = fail_next s now in
      (t.waiting ≡ n)
      × (t.breaker.failures ≡ suc s.breaker.failures)
      × (t.breaker.cfg.consecutive_failures ≡ pos k)
      × (suc s.breaker.failures < k → t.breaker.state ≡ closed)
      × (suc s.breaker.failures ≡ k
          → (t.breaker.state ≡ open_circuit) × (t.breaker.opened_at ≡ now))
unfolding fail_next record_failure
fail_next_counts s now n k w e c = rw w (ground arith)

fail_waiting_counts :
    (s : System) (times : List ℕ) (n k : ℕ)
    → s.waiting ≡ length times + n
    → s.breaker.state ≡ closed
    → s.breaker.cfg.consecutive_failures ≡ pos k
    → s.breaker.failures + length times < k
    → let t = fail_waiting s times in
      (t.waiting ≡ n)
      × (t.breaker.failures ≡ s.breaker.failures + length times)
      × (t.breaker.cfg.consecutive_failures ≡ pos k)
      × (t.breaker.state ≡ closed)
unfolding fail_waiting
fail_waiting_counts s [] n k w e c h = (omega arith, omega arith, c, e)
fail_waiting_counts s (now ∷ times) n k w e c h =
    let (w', f', c', below, at) = fail_next_counts s now (length times + n) k (omega arith) e c in
    let (w'', f'', c'', e'') =
      fail_waiting_counts (fail_next s now) times n k w' (below (omega arith)) c' (omega arith) in
    (w'', omega arith, c'', e'')

-- Let a closed breaker have no failure counted, `suc k` for its threshold and no request waiting, and
-- let `suc (suc k)` requests arrive: none of them changes the breaker, so each is sent while the
-- circuit is closed. When `suc k` of them have failed, the last at the time `later`, the circuit is
-- open since `later`, and one request still waits. If that one now succeeds, at whatever time, the
-- circuit is closed at once, which is no edge of the state diagram.
pub straggler_closes :
    (s : System) (k later : ℕ) (arrivals failures : List ℕ)
    → s.breaker.state ≡ closed
    → s.breaker.failures ≡ 0
    → s.breaker.cfg.consecutive_failures ≡ pos (suc k)
    → s.waiting ≡ 0
    → length arrivals ≡ suc (suc k)
    → length failures ≡ k
    → let sent = begin_all s arrivals in
      let t = fail_next (fail_waiting sent failures) later in
      (sent.breaker ≡ s.breaker)
      × (t.breaker.state ≡ open_circuit)
      × (t.breaker.opened_at ≡ later)
      × (t.waiting ≡ 1)
      × Reach s t
      × ((u : System) × Step t u
          × (u.waiting ≡ 0)
          × (u.breaker.state ≡ closed)
          × (¬ Moves t.breaker.state u.breaker.state))
straggler_closes s k later arrivals failures e z c w a f =
    let (same, count) = begin_all_closed s arrivals e in
    let sent = begin_all s arrivals in
    let (w', f', c', e') =
      fail_waiting_counts sent failures 2 (suc k) (omega arith) (rw same e) (rw same c)
        (rw same (omega arith)) in
    let before = fail_waiting sent failures in
    let (w'', _, _, _, at) = fail_next_counts before later 1 (suc k) w' e' c' in
    let (opened, since) = at (rw (f', same) (omega arith)) in
    (
      same,
      opened,
      since,
      w'',
      fail_next-Reach before later
          (fail_waiting-Reach sent failures (begin_all-Reach s arrivals here)),
      straggler_answered (fail_next before later) 0 opened w'',
    )

-- In the half-open state every request is sent to the primary, not only the first.
pub half_open_admits_all :
    (s : System) (now : ℕ)
    → s.breaker.state ≡ half_open
    → (begin s now ≡ record s { waiting = suc s.waiting })
unfolding begin current_state
half_open_admits_all s now e = ground arith
