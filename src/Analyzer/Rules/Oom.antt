-- ===== src/Analyzer/Rules/Oom.antt =====
-- internal/analyzer/rules.go: a container that ran out of memory comes before all else.
use wormsign.Common.{
  ℕ, ◌≡◌, refl, String, Bool, true, false, List, [], ◌∷◌, ◌++◌, some, Bool-cases, inl, inr, ok,
  arith, All, ◌⊎◌, str_eq, eq_iff,
}
use wormsign.Common.Text.{texts, quote}
use wormsign.Model.{critical, DiagnosticBundle, RcaReport, is_nil}
use wormsign.Analyzer.Rules.Signals.{ContainerSignal, DiagnosticSignals}
use wormsign.Analyzer.Rules.Extraction.{extract_signals}
use wormsign.Analyzer.Rules.Chain.{oom_test, oom_verdict, first_container, rule_oom_killed}
use wormsign.Analyzer.Rules.Analyze.{rules_chain, first_verdict, has_event, report_of, analyze}

-- The reason of the container's state, or of its last termination, is that it was killed for want of
-- memory.
abbrev pub IsKilled : ContainerSignal → Type 0
IsKilled c = (c.state_reason ≡ "OOMKilled") ⊎ (c.last_term_reason ≡ "OOMKilled")

oom_test-IsKilled : (c : ContainerSignal) → IsKilled c → oom_test c ≡ true
oom_test-IsKilled c (inl now) = ground (arith, (eq_iff c.state_reason "OOMKilled").1 now)
oom_test-IsKilled c (inr last) = ground (arith, (eq_iff c.last_term_reason "OOMKilled").1 last)

oom_test_spared : (c : ContainerSignal) → ¬ IsKilled c → oom_test c ≡ false
oom_test_spared c spared = elim (Bool-cases (str_eq c.state_reason "OOMKilled")) [
  | inl now ↦ absurd (spared (inl ((eq_iff c.state_reason "OOMKilled").0 now)))
  | inr not_now ↦ elim (Bool-cases (str_eq c.last_term_reason "OOMKilled")) [
    | inl last ↦ absurd (spared (inr ((eq_iff c.last_term_reason "OOMKilled").0 last)))
    | inr not_last ↦ ground (arith, not_now, not_last)
  ]
]

first_container-killed :
    (before after : List ContainerSignal) (c : ContainerSignal)
    → All (λ b. ¬ IsKilled b) before
    → IsKilled c
    → first_container oom_test (before ++ c ∷ after) ≡ some c
first_container-killed [] after c spared killed = rw (oom_test-IsKilled c killed)
first_container-killed (b ∷ before) after c (s, spared) killed =
    rw (oom_test_spared b s) (first_container-killed before after c spared killed)

first_verdict_killed :
    (bundle : DiagnosticBundle) (s : DiagnosticSignals) (before after : List ContainerSignal)
    (c : ContainerSignal)
    → s.container_states ≡ before ++ c ∷ after
    → All (λ b. ¬ IsKilled b) before
    → IsKilled c
    → first_verdict rules_chain bundle s ≡ oom_verdict bundle c
unfolding first_verdict rule_oom_killed
first_verdict_killed bundle s before after c states spared killed =
    rw (first_verdict, states, first_container-killed before after c spared killed)

-- Let a bundle have an event, and the context not be done, and let a container of the pod have
-- "OOMKilled" for the reason of its state or of its last termination, and no container before it.
-- Then the analyzer of the rules succeeds whatever else the sections say. The report's root cause
-- names that container, it is critical, of the category "resources" and of confidence 0.9, and it has
-- a remedy.
pub analyze_oom :
    {F : Type 0} (hundredths : ℕ → F) (log_matches : String → String → Bool) (now : ℕ)
    (bundle : DiagnosticBundle) (before after : List ContainerSignal) (c : ContainerSignal)
    → has_event bundle.super_event bundle.fault_event ≡ true
    → (extract_signals log_matches bundle).container_states ≡ before ++ c ∷ after
    → All (λ b. ¬ IsKilled b) before
    → IsKilled c
    → (r : RcaReport F) × (analyze hundredths log_matches false now bundle ≡ ok r)
      × ((restarts : String) × (r.root_cause
            ≡ texts
                ("Container " ∷ quote c.name ∷ " was OOM-killed (exit code 137)" ∷ restarts ∷ [])))
      × (r.severity ≡ critical)
      × (r.category ≡ "resources")
      × (r.confidence ≡ hundredths 90)
      × (is_nil r.remediation ≡ false)
unfolding analyze
analyze_oom hundredths log_matches now bundle before after c given states spared killed =
    let s = extract_signals log_matches bundle in
    let found = first_verdict_killed bundle s before after c states spared killed in
    (
      report_of hundredths bundle s now (oom_verdict bundle c),
      rw (given, found),
      (_, refl),
      refl,
      refl,
      refl,
      refl,
    )
