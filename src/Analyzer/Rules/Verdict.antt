-- ===== src/Analyzer/Rules/Verdict.antt =====
-- internal/analyzer/rules.go: what every report of the rules promises.
use wormsign.Common.{
  ℕ, ◌≤◌, ◌≡◌, refl, String, Bool, true, false, List, [], ◌∷◌, Option, none, some, All,
  if◌then◌else◌, ok, arith,
}
use wormsign.Common.Int.{pos}
use wormsign.Model.{is_valid, DiagnosticBundle, RcaReport, is_nil}
use wormsign.Analyzer.Reports.Source.{original_severity}
use wormsign.Analyzer.Reports.Response.{is_valid_category}
use wormsign.Analyzer.Reports.Valid.{IsFaithful}
use wormsign.Analyzer.Rules.Signals.{DiagnosticSignals}
use wormsign.Analyzer.Rules.Extraction.{extract_signals}
use wormsign.Analyzer.Rules.Chain.{
  Verdict, Rule, first_container, oom_test, oom_verdict, pull_failed, pull_verdict, rule_oom_killed,
  rule_node_not_ready, rule_node_pressure, rule_pvc_stuck_pending, rule_scheduling_failed,
  rule_image_pull_error, rule_pod_stuck_pending,
}
use wormsign.Analyzer.Rules.Categories.{
  log_pattern_category, crash_loop_remediation, one_of, network_patterns,
}
use wormsign.Analyzer.Rules.Workloads.{
  rule_probe_failure, rule_crash_loop_with_logs, rule_deployment_rollout,
  rule_job_deadline_exceeded, rule_pod_failed, rule_generic_crash_loop, rule_generic_from_logs,
  rule_fallback, first_error, crash_verdict, log_verdict,
}
use wormsign.Analyzer.Rules.Evidence.{has_crash_loop}
use wormsign.Analyzer.Rules.Analyze.{rules_chain, first_verdict, has_event, report_of, analyze}

-- A known category, a valid severity, a confidence from 0.3 to 0.9, and at least one remedy.
abbrev pub IsSound : Verdict → Type 0
IsSound v =
    (is_valid_category v.category ≡ true)
    × (is_valid v.severity ≡ true)
    × (30 ≤ v.confidence)
    × (v.confidence ≤ 90)
    × (is_nil v.remediation ≡ false)

-- If the rule matches, its verdict is sound.
abbrev Passes : Option Verdict → Type 0
Passes none = Unit
Passes (some v) = IsSound v

if-Passes : (b : Bool) (v : Verdict) → IsSound v → Passes (if b then some v else none)
if-Passes true v h = h
if-Passes false v h = tt

unless-Passes : (b : Bool) (v : Verdict) → IsSound v → Passes (if b then none else some v)
unless-Passes true v h = tt
unless-Passes false v h = h

if_known :
    (b : Bool) (c d : String)
    → is_valid_category c ≡ true
    → is_valid_category d ≡ true
    → is_valid_category (if b then c else d) ≡ true
if_known true c d hc hd = hc
if_known false c d hc hd = hd

category_known : (p : String) → is_valid_category (log_pattern_category p) ≡ true
unfolding log_pattern_category is_valid_category
category_known p =
    let settings =
      one_of
        ("permission-denied" ∷ "auth-failure" ∷ "no-such-file" ∷ "command-not-found"
          ∷ "read-only-fs" ∷ [])
        p in
    let memory = one_of ("oom" ∷ "java-oom" ∷ []) p in
    let disk = one_of ("disk-full" ∷ []) p in
    let last : String = if memory then "resources" else "application" in
    let later : String = if disk then "resources" else last in
    let middle : String = if settings then "configuration" else later in
    if_known (one_of network_patterns p) "networking" middle refl (
      if_known settings "configuration" later refl
        (if_known disk "resources" last refl (if_known memory "resources" "application" refl refl)))

option-Passes :
    {A : Type 0} (o : Option A) (f : A → Verdict)
    → ((a : A) → IsSound (f a))
    → Passes (elim o [ none ↦ none | some a ↦ some (f a) ])
option-Passes none f h = tt
option-Passes (some a) f h = h a

guarded-Passes : (b : Bool) (o : Option Verdict) → Passes o → Passes (if b then o else none)
guarded-Passes true o h = h
guarded-Passes false o h = tt

found-IsSound :
    (o : Option Verdict) (rest : Verdict)
    → Passes o
    → IsSound rest
    → IsSound (elim o [ none ↦ rest | some v ↦ v ])
found-IsSound none rest h hr = hr
found-IsSound (some v) rest h hr = h

module _ (bundle : DiagnosticBundle) (severe : is_valid (original_severity bundle) ≡ true) where
  rule_oom_killed-Passes : (s : DiagnosticSignals) → Passes (rule_oom_killed bundle s)
  unfolding rule_oom_killed is_valid_category
  rule_oom_killed-Passes s =
      option-Passes (first_container oom_test s.container_states) (oom_verdict bundle)
        (λ c. (refl, refl, omega arith, omega arith, refl))

  rule_image_pull_error-Passes : (s : DiagnosticSignals) → Passes (rule_image_pull_error bundle s)
  unfolding rule_image_pull_error is_valid_category
  rule_image_pull_error-Passes s =
      option-Passes (first_container pull_failed s.container_states) (pull_verdict bundle)
        (λ c. (refl, refl, omega arith, omega arith, refl))

  rule_crash_loop_with_logs-Passes :
      (s : DiagnosticSignals) → Passes (rule_crash_loop_with_logs bundle s)
  unfolding rule_crash_loop_with_logs crash_loop_remediation
  rule_crash_loop_with_logs-Passes s = guarded-Passes (has_crash_loop s) _ (
      option-Passes (first_error s.log_errors) (crash_verdict bundle s)
        (λ le. (category_known le.pattern, severe, omega arith, omega arith, refl)))

  rule_generic_from_logs-Passes : (s : DiagnosticSignals) → Passes (rule_generic_from_logs bundle s)
  unfolding rule_generic_from_logs
  rule_generic_from_logs-Passes s =
      option-Passes (first_error s.log_errors) (log_verdict bundle)
        (λ le. (category_known le.pattern, severe, omega arith, omega arith, refl))

  rule_fallback-IsSound : (s : DiagnosticSignals) → IsSound (rule_fallback bundle s)
  unfolding rule_fallback is_valid_category
  rule_fallback-IsSound s = (refl, severe, omega arith, omega arith, refl)

  rule_node_not_ready-Passes : (s : DiagnosticSignals) → Passes (rule_node_not_ready bundle s)
  unfolding rule_node_not_ready is_valid_category
  rule_node_not_ready-Passes s = if-Passes _ _ (refl, refl, omega arith, omega arith, refl)

  rule_node_pressure-Passes : (s : DiagnosticSignals) → Passes (rule_node_pressure bundle s)
  unfolding rule_node_pressure is_valid_category
  rule_node_pressure-Passes s = if-Passes _ _ (refl, refl, omega arith, omega arith, refl)

  rule_pvc_stuck_pending-Passes : (s : DiagnosticSignals) → Passes (rule_pvc_stuck_pending bundle s)
  unfolding rule_pvc_stuck_pending is_valid_category
  rule_pvc_stuck_pending-Passes s = if-Passes _ _ (refl, refl, omega arith, omega arith, refl)

  rule_scheduling_failed-Passes : (s : DiagnosticSignals) → Passes (rule_scheduling_failed bundle s)
  unfolding rule_scheduling_failed is_valid_category
  rule_scheduling_failed-Passes s = unless-Passes _ _ (refl, refl, omega arith, omega arith, refl)

  rule_pod_stuck_pending-Passes : (s : DiagnosticSignals) → Passes (rule_pod_stuck_pending bundle s)
  unfolding rule_pod_stuck_pending is_valid_category
  rule_pod_stuck_pending-Passes s = if-Passes _ _ (refl, refl, omega arith, omega arith, refl)

  rule_probe_failure-Passes : (s : DiagnosticSignals) → Passes (rule_probe_failure bundle s)
  unfolding rule_probe_failure is_valid_category
  rule_probe_failure-Passes s = unless-Passes _ _ (refl, refl, omega arith, omega arith, refl)

  rule_deployment_rollout-Passes :
      (s : DiagnosticSignals) → Passes (rule_deployment_rollout bundle s)
  unfolding rule_deployment_rollout is_valid_category
  rule_deployment_rollout-Passes s = if-Passes _ _ (refl, severe, omega arith, omega arith, refl)

  rule_job_deadline_exceeded-Passes :
      (s : DiagnosticSignals) → Passes (rule_job_deadline_exceeded bundle s)
  unfolding rule_job_deadline_exceeded is_valid_category
  rule_job_deadline_exceeded-Passes s = if-Passes _ _ (refl, refl, omega arith, omega arith, refl)

  rule_pod_failed-Passes : (s : DiagnosticSignals) → Passes (rule_pod_failed bundle s)
  unfolding rule_pod_failed is_valid_category
  rule_pod_failed-Passes s = if-Passes _ _ (refl, severe, omega arith, omega arith, refl)

  rule_generic_crash_loop-Passes :
      (s : DiagnosticSignals) → Passes (rule_generic_crash_loop bundle s)
  unfolding rule_generic_crash_loop is_valid_category
  rule_generic_crash_loop-Passes s = if-Passes _ _ (refl, severe, omega arith, omega arith, refl)

  first_verdict-IsSound :
      (rules : List Rule) (s : DiagnosticSignals)
      → All (λ (rule : Rule). Passes (rule bundle s)) rules
      → IsSound (first_verdict rules bundle s)
  unfolding first_verdict
  first_verdict-IsSound [] s h = rule_fallback-IsSound s
  first_verdict-IsSound (rule ∷ rules) s (h, hs) =
      found-IsSound (rule bundle s) (first_verdict rules bundle s) h
        (first_verdict-IsSound rules s hs)

  rules_chain-IsSound : (s : DiagnosticSignals) → IsSound (first_verdict rules_chain bundle s)
  rules_chain-IsSound s = first_verdict-IsSound rules_chain s (
    rule_oom_killed-Passes s,
    (
      rule_node_not_ready-Passes s,
      (
        rule_node_pressure-Passes s,
        (
          rule_pvc_stuck_pending-Passes s,
          (
            rule_scheduling_failed-Passes s,
            (
              rule_image_pull_error-Passes s,
              (
                rule_pod_stuck_pending-Passes s,
                (
                  rule_probe_failure-Passes s,
                  (
                    rule_crash_loop_with_logs-Passes s,
                    (
                      rule_deployment_rollout-Passes s,
                      (
                        rule_job_deadline_exceeded-Passes s,
                        (
                          rule_pod_failed-Passes s,
                          (
                            rule_generic_crash_loop-Passes s,
                            (rule_generic_from_logs-Passes s, (rule_fallback-IsSound s, tt)),
                          ),
                        ),
                      ),
                    ),
                  ),
                ),
              ),
            ),
          ),
        ),
      ),
    ),
  )

  -- For a bundle that has an event of a valid severity, and a context that is not done, the analyzer of
  -- the rules succeeds. Its report is about that event, with a known category, a valid severity, a
  -- confidence from 0.3 to 0.9, at least one remedy, and no tokens.
  pub analyze-IsSound :
      {F : Type 0} (hundredths : ℕ → F) (log_matches : String → String → Bool) (now : ℕ)
      → has_event bundle.super_event bundle.fault_event ≡ true
      → (r : RcaReport F) × (c : ℕ) × (analyze hundredths log_matches false now bundle ≡ ok r)
        × IsFaithful bundle r
        × (r.confidence ≡ hundredths c)
        × (30 ≤ c)
        × (c ≤ 90)
        × (is_nil r.remediation ≡ false)
        × (r.analyzer_backend ≡ "rules")
        × (r.tokens_used ≡ record { input = pos 0; output = pos 0 })
  unfolding analyze
  analyze-IsSound hundredths log_matches now given =
      let s = extract_signals log_matches bundle in
      let v = first_verdict rules_chain bundle s in
      let (known, valid, doubtful, limited, helpful) = rules_chain-IsSound s in
      (
        report_of hundredths bundle s now v,
        v.confidence,
        ground (arith, given),
        (refl, refl, known, valid),
        refl,
        doubtful,
        limited,
        helpful,
        refl,
        refl,
      )
