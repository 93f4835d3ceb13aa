-- ===== src/Pipeline/Correlator/Engine.antt =====
-- internal/pipeline/correlator/correlator.go: the correlator as a state machine. `delivered` is what
-- the output handler was called with, in order; `calls` counts the calls of `NewSuperEvent`.
use mathlib.Core.List.{append-nil, append_assoc}
use wormsign.Common.{
  ℕ, ◌+◌, ◌≡◌, refl, ap, sym, subst, String, Bool, true, false, not, List, [], ◌∷◌, ◌++◌, Option,
  none, some, concat_map, if◌then◌else◌, Result, ok, err, Bool-cases, inl, inr, arith,
}
use wormsign.Common.Counting.{count, count-append}
use wormsign.Common.Removal.{has_id, IsDistinct}
use wormsign.Common.Order.{MapOrder}
use wormsign.Model.{FaultEvent, SuperEvent, is_nil}
use wormsign.Pipeline.Correlator.Config.{Config, ConfigError, validate_config}
use wormsign.Pipeline.Correlator.Defs.{CorrelationResult, evaluate}
use wormsign.Pipeline.Correlator.Emission.{correlated, event_id}
use wormsign.Pipeline.Correlator.Partition.{evaluate_partition}

pub record Correlator : Type 0 where
  pub config : Config
  pub buffer : List FaultEvent
  pub calls : ℕ
  pub delivered : List CorrelationResult

pub data NewError : Type 0 where
  bad_config : ConfigError → NewError
  no_handler no_metrics : NewError

-- `New`: a nil handler or nil metrics is `false`.
unfoldable pub new_correlator : Config → Bool → Bool → Result NewError Correlator
new_correlator cfg handler metrics = elim (validate_config cfg) [
  | some e ↦ err (bad_config e)
  | none ↦
      if handler
      then (if metrics
          then ok (record { config = cfg; buffer = []; calls = 0; delivered = [] })
          else err no_metrics)
      else err no_handler
]

-- A call of the output handler.
abbrev pub handle : Correlator → CorrelationResult → Correlator
handle c result = record c { delivered = c.delivered ++ result ∷ [] }

unfoldable pub submit : Correlator → FaultEvent → Correlator
submit c e =
    if c.config.enabled
    then record c { buffer = c.buffer ++ e ∷ [] }
    else handle c (record { super_events = []; uncorrelated_events = e ∷ [] })

abbrev pub has_output : CorrelationResult → Bool
has_output result =
    if is_nil result.super_events then not (is_nil result.uncorrelated_events) else true

-- What a round of the loop of `Run`, a stop or a flush waits for.
pub data Op : Type 0 where
  submits : FaultEvent → Op
  ticks : Op

module _ (order : MapOrder) (uuid : ℕ → Option String) (clock : ℕ → ℕ) where
  unfoldable pub evaluate_and_emit : Correlator → Correlator
  evaluate_and_emit c =
      if is_nil c.buffer
      then record c { buffer = [] }
      else (let (result, calls) = evaluate order uuid clock c.config.rules c.buffer c.calls in
          let c' = record c { buffer = []; calls = calls } in
          if has_output result then handle c' result else c')

  -- A disabled correlator never evaluates: its loop waits for the end.
  unfoldable pub step : Correlator → Op → Correlator
  step c (submits e) = submit c e
  step c ticks = if c.config.enabled then evaluate_and_emit c else c

  unfoldable pub run : Correlator → List Op → Correlator
  run c [] = c
  run c (o ∷ os) = run (step c o) os

abbrev pub submitted : List Op → List FaultEvent
submitted [] = []
submitted (submits e ∷ os) = e ∷ submitted os
submitted (ticks ∷ os) = submitted os

abbrev pub outputs : CorrelationResult → List FaultEvent
outputs result = correlated result.super_events ++ result.uncorrelated_events

-- The events that the handler was given, in super-events or alone.
abbrev pub emitted : Correlator → List FaultEvent
emitted c = concat_map outputs c.delivered

count-emitted-handle :
    (p : FaultEvent → Bool) (rs : List CorrelationResult) (result : CorrelationResult)
    → count p (concat_map outputs (rs ++ result ∷ []))
      ≡ count p (concat_map outputs rs) + count p (outputs result)
count-emitted-handle p [] result = omega (arith, count-append p (outputs result) [])
count-emitted-handle p (r ∷ rs) result = omega (
  arith,
  count-emitted-handle p rs result,
  count-append p (outputs r) (concat_map outputs rs),
  count-append p (outputs r) (concat_map outputs (rs ++ result ∷ [])),
)

nil_count : (p : FaultEvent → Bool) (es : List FaultEvent) → is_nil es ≡ true → count p es ≡ 0
nil_count p [] h = refl
nil_count p (e ∷ es) h = cc

no_outputs :
    (p : FaultEvent → Bool) (supers : List SuperEvent) (alone : List FaultEvent)
    → (if is_nil supers then not (is_nil alone) else true) ≡ false
    → count p (correlated supers ++ alone) ≡ 0
no_outputs p [] [] h = refl
no_outputs p [] (e ∷ es) h = cc
no_outputs p (s ∷ ss) es h = cc

regroup :
    (es : List FaultEvent) (o : Op) (os : List Op)
    → es ++ submitted (o ∷ os) ≡ (es ++ submitted (o ∷ [])) ++ submitted os
regroup es (submits e) os = simp append_assoc
regroup es ticks os = simp append-nil

new_empty :
    (cfg : Config) (handler metrics : Bool) (c : Correlator)
    → new_correlator cfg handler metrics ≡ ok c
    → (c.delivered ≡ []) × (c.buffer ≡ [])
unfolding new_correlator
new_empty cfg handler metrics c h = ground arith

new_holds :
    (p : FaultEvent → Bool) (cfg : Config) (handler metrics : Bool) (c : Correlator)
    → new_correlator cfg handler metrics ≡ ok c
    → 0 ≡ count p (emitted c) + count p c.buffer
new_holds p cfg handler metrics c h =
    let (d, b) = new_empty cfg handler metrics c h in
    omega (arith, ap (λ l. count p (concat_map outputs l)) d, ap (count p) b)

module _ (order : MapOrder) (uuid : ℕ → Option String) (clock : ℕ → ℕ) where
  -- What went to the handler and what waits in the buffer are the events given.
  abbrev Holds : List FaultEvent → Correlator → Type 0
  Holds es c = (p : FaultEvent → Bool) → count p es ≡ count p (emitted c) + count p c.buffer

  submit-Holds :
      (es : List FaultEvent) (c : Correlator) (e : FaultEvent)
      → Holds es c
      → Holds (es ++ e ∷ []) (submit c e)
  unfolding submit
  submit-Holds es c e h p = elim (Bool-cases c.config.enabled) [
    | inl on ↦
        simp on (omega (arith, h p, count-append p es (e ∷ []), count-append p c.buffer (e ∷ [])))
    | inr off ↦ simp off (
        omega (
          arith,
          h p,
          count-append p es (e ∷ []),
          count-emitted-handle p c.delivered
              (record { super_events = []; uncorrelated_events = e ∷ [] }),
        ))
  ]

  evaluate_and_emit-Holds :
      (es : List FaultEvent) (c : Correlator)
      → IsDistinct event_id es
      → Holds es c
      → Holds es (evaluate_and_emit order uuid clock c)
  unfolding evaluate_and_emit
  evaluate_and_emit-Holds es c d h p =
      let whole =
        evaluate_partition order uuid clock c.buffer
          (λ i. omega (arith, d i, h (has_id event_id i))) c.config.rules c.calls p in
      let result = (evaluate order uuid clock c.config.rules c.buffer c.calls).0 in
      elim (Bool-cases (is_nil c.buffer)) [
        | inl nil ↦ simp nil (omega (arith, h p, nil_count p c.buffer nil))
        | inr some_events ↦ elim (Bool-cases (has_output result)) [
          | inl out ↦
              simp (some_events, out)
                (omega (arith, h p, whole, count-emitted-handle p c.delivered result))
          | inr none_out ↦
              simp (some_events, none_out)
                (omega (
                  arith,
                  h p,
                  whole,
                  no_outputs p result.super_events result.uncorrelated_events none_out,
                ))
        ]
      ]

  whether :
      (b : Bool) (es : List FaultEvent) (c c' : Correlator)
      → Holds es c'
      → Holds es c
      → Holds es (if b then c' else c)
  whether true es c c' x y = x
  whether false es c c' x y = y

  step-Holds :
      (es : List FaultEvent) (c : Correlator) (o : Op)
      → IsDistinct event_id es
      → Holds es c
      → Holds (es ++ submitted (o ∷ [])) (step order uuid clock c o)
  unfolding step
  step-Holds es c (submits e) d h = submit-Holds es c e h
  step-Holds es c ticks d h = rw (append-nil es) (
      whether c.config.enabled es c (evaluate_and_emit order uuid clock c)
        (evaluate_and_emit-Holds es c d h) h)

  run-Holds :
      (es : List FaultEvent) (c : Correlator) (os : List Op)
      → IsDistinct event_id (es ++ submitted os)
      → Holds es c
      → Holds (es ++ submitted os) (run order uuid clock c os)
  unfolding run
  run-Holds es c [] d h = rw (append-nil es) h
  run-Holds es c (o ∷ os) d h =
      let first =
        step-Holds es c o
          (λ i. omega (arith, d i, count-append (has_id event_id i) es (submitted (o ∷ os)))) h in
      let rest =
        run-Holds (es ++ submitted (o ∷ [])) (step order uuid clock c o) os
          (subst (IsDistinct event_id) (regroup es o os) d) first in
      subst (λ l. Holds l (run order uuid clock (step order uuid clock c o) os))
        (sym (regroup es o os)) rest

  evaluate_empties : (c : Correlator) → (evaluate_and_emit order uuid clock c).buffer ≡ []
  unfolding evaluate_and_emit
  evaluate_empties c = ground arith

  -- For a new correlator and any sequence of submissions, with distinct identifiers, and window
  -- ends, of which the last is the flush at the end: the handler is given every submitted event as
  -- often as it was submitted, in a super-event or alone, and no other event; nothing stays buffered.
  pub run_delivers :
      (cfg : Config) (handler metrics : Bool) (c : Correlator) (os : List Op)
      → new_correlator cfg handler metrics ≡ ok c
      → IsDistinct event_id (submitted os)
      → let end = evaluate_and_emit order uuid clock (run order uuid clock c os) in
        (end.buffer ≡ [])
        × ((p : FaultEvent → Bool) → count p (emitted end) ≡ count p (submitted os))
  run_delivers cfg handler metrics c os new d =
      let fresh : Holds [] c = λ p. new_holds p cfg handler metrics c new in
      let all = run-Holds [] c os d fresh in
      let end = evaluate_and_emit-Holds (submitted os) (run order uuid clock c os) d all in
      let empty = evaluate_empties (run order uuid clock c os) in
      (empty, λ p. omega (arith, end p, ap (count p) empty))
