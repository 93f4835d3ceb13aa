-- ===== src/Analyzer/Rules/Analyze.antt =====
-- internal/analyzer/rules.go: `Analyze`. A context that is done is an argument.
use wormsign.Common.{
  ℕ, String, Bool, true, false, List, [], ◌∷◌, Option, none, some, if◌then◌else◌, Result, ok, err,
}
use wormsign.Common.Int.{pos}
use wormsign.Model.{FaultEvent, SuperEvent, DiagnosticBundle, RcaReport}
use wormsign.Analyzer.Reports.Source.{fault_event_id}
use wormsign.Analyzer.Rules.Signals.{DiagnosticSignals}
use wormsign.Analyzer.Rules.Extraction.{extract_signals}
use wormsign.Analyzer.Rules.Evidence.{bundle_related_resources, build_evidence}
use wormsign.Analyzer.Rules.Chain.{
  Verdict, Rule, rule_oom_killed, rule_node_not_ready, rule_node_pressure, rule_pvc_stuck_pending,
  rule_scheduling_failed, rule_image_pull_error, rule_pod_stuck_pending,
}
use wormsign.Analyzer.Rules.Workloads.{
  rule_probe_failure, rule_crash_loop_with_logs, rule_deployment_rollout,
  rule_job_deadline_exceeded, rule_pod_failed, rule_generic_crash_loop, rule_generic_from_logs,
  rule_fallback,
}

abbrev pub always : (DiagnosticBundle → DiagnosticSignals → Verdict) → Rule
always rule bundle s = some (rule bundle s)

abbrev pub rules_chain : List Rule
rules_chain =
    rule_oom_killed
    ∷ rule_node_not_ready
    ∷ rule_node_pressure
    ∷ rule_pvc_stuck_pending
    ∷ rule_scheduling_failed
    ∷ rule_image_pull_error
    ∷ rule_pod_stuck_pending
    ∷ rule_probe_failure
    ∷ rule_crash_loop_with_logs
    ∷ rule_deployment_rollout
    ∷ rule_job_deadline_exceeded
    ∷ rule_pod_failed
    ∷ rule_generic_crash_loop
    ∷ rule_generic_from_logs
    ∷ always rule_fallback
    ∷ []

-- The loop of `Analyze` over the rules, and the fallback behind it.
unfoldable pub first_verdict : List Rule → DiagnosticBundle → DiagnosticSignals → Verdict
first_verdict [] bundle s = rule_fallback bundle s
first_verdict (rule ∷ rules) bundle s =
    let rest = first_verdict rules bundle s in elim (rule bundle s) [ none ↦ rest | some v ↦ v ]

pub data RulesError : Type 0 where
  context_done no_event : RulesError

abbrev pub has_event : Option SuperEvent → Option FaultEvent → Bool
has_event none none = false
has_event none (some fe) = true
has_event (some se) fe = true

-- `hundredths n` is the `float64` nearest to n / 100.
module _ {F : Type 0} (hundredths : ℕ → F) where
  -- What a rule returns for its verdict.
  abbrev pub report_of : DiagnosticBundle → DiagnosticSignals → ℕ → Verdict → RcaReport F
  report_of bundle s now v = record {
    fault_event_id = fault_event_id bundle;
    timestamp = now;
    root_cause = v.root_cause;
    severity = v.severity;
    category = v.category;
    systemic = v.systemic;
    blast_radius = v.radius;
    remediation = v.remediation;
    related_resources = bundle_related_resources bundle;
    confidence = hundredths v.confidence;
    raw_analysis = build_evidence v.rule_name s;
    diagnostic_bundle = bundle;
    analyzer_backend = "rules";
    tokens_used = record { input = pos 0; output = pos 0 };
  }

  unfoldable pub analyze :
      (String → String → Bool) → Bool → ℕ → DiagnosticBundle → Result RulesError (RcaReport F)
  analyze log_matches done now bundle =
      if done
      then err context_done
      else if has_event bundle.super_event bundle.fault_event
      then (let s = extract_signals log_matches bundle in
          ok (report_of bundle s now (first_verdict rules_chain bundle s)))
      else err no_event
