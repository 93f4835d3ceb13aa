-- ===== src/Analyzer/Rules/Workloads.antt =====
-- internal/analyzer/rules.go: the rules about failing workloads, and the fallback.
use wormsign.Common.{
  String, Bool, true, false, not, ◌&&◌, ◌||◌, List, [], ◌∷◌, Option, none, some, ltb, ◌==◌, str_eq,
  length, if◌then◌else◌,
}
use wormsign.Common.Int.{sub_ℕ}
use wormsign.Common.Text.{texts, decimal, decimal_int, quote, lower_case, contains_text}
use wormsign.Model.{warning, FaultEvent, SuperEvent, DiagnosticBundle, is_empty}
use wormsign.Analyzer.Reports.Source.{original_severity}
use wormsign.Analyzer.Rules.Signals.{ContainerSignal, LogErrorSignal, DiagnosticSignals}
use wormsign.Analyzer.Rules.Evidence.{
  has_crash_loop, last_exit_code, resource_name, is_super_event_systemic, blast_radius, truncate,
  first_non_empty_line,
}
use wormsign.Analyzer.Rules.Chain.{
  Verdict, Rule, first_container, or_none, first_message, detected_by, grouped_by,
}
use wormsign.Analyzer.Rules.Categories.{log_pattern_category, crash_loop_remediation}

abbrev probe_type : String → String
probe_type lower =
    if contains_text "readiness" lower
    then "Readiness"
    else if contains_text "liveness" lower
    then "Liveness"
    else if contains_text "startup" lower
    then "Startup"
    else "Health"

unfoldable pub rule_probe_failure : Rule
rule_probe_failure bundle s =
    let message = first_message "Unhealthy" s.event_messages in
    if is_empty message
    then none
    else some (record {
      rule_name = "ProbeFailure";
      root_cause =
          texts (probe_type (lower_case message) ∷ " probe failing: " ∷ truncate message 200 ∷ []);
      severity = warning;
      category = "application";
      systemic = false;
      radius = blast_radius bundle;
      remediation =
          "Check if the application's health endpoint is responding correctly"
          ∷ "Review probe configuration (initialDelaySeconds, periodSeconds, failureThreshold)"
          ∷ "Check application logs for startup errors or dependency issues" ∷ [];
      confidence = 75;
    })

abbrev pub crashed : ContainerSignal → Bool
crashed c = str_eq c.state_reason "CrashLoopBackOff" || str_eq c.state_type "Terminated"

-- A line after a text, if there is one.
abbrev pub followed_by : String → String → String
followed_by front line = if is_empty line then "" else texts (front ∷ truncate line 200 ∷ [])

abbrev pub crash_verdict : DiagnosticBundle → DiagnosticSignals → LogErrorSignal → Verdict
crash_verdict bundle s le =
    let c = or_none (first_container crashed s.container_states) in
    record {
      rule_name = "CrashLoopWithLogs";
      root_cause = texts (
          "Container "
          ∷ quote c.name
          ∷ " in CrashLoopBackOff (exit code "
          ∷ decimal (last_exit_code c)
          ∷ ")"
          ∷ followed_by ". Last error: " (first_non_empty_line le.snippet)
          ∷ []);
      severity = original_severity bundle;
      category = log_pattern_category le.pattern;
      systemic = is_super_event_systemic bundle;
      radius = blast_radius bundle;
      remediation = crash_loop_remediation le.pattern c.name;
      confidence = 70;
    }

abbrev pub first_error : List LogErrorSignal → Option LogErrorSignal
first_error [] = none
first_error (e ∷ es) = some e

unfoldable pub rule_crash_loop_with_logs : Rule
rule_crash_loop_with_logs bundle s =
    if has_crash_loop s
    then elim (first_error s.log_errors) [
      | none ↦ none
      | some le ↦ some (crash_verdict bundle s le)
    ]
    else none

unfoldable pub rule_deployment_rollout : Rule
rule_deployment_rollout bundle s =
    let name = if is_empty s.deployment_name then resource_name bundle else s.deployment_name in
    let short =
      not (is_empty s.deployment_name)
      && (ltb 0 s.desired_replicas && ltb s.ready_replicas s.desired_replicas) in
    if str_eq s.rollout_condition "MinimumReplicasUnavailable"
      || (short || grouped_by "DeploymentRollout" bundle.super_event)
    then some (record {
      rule_name = "DeploymentRollout";
      root_cause = texts (
          "Deployment "
          ∷ quote name
          ∷ " rollout failing: "
          ∷ decimal s.ready_replicas
          ∷ "/"
          ∷ decimal s.desired_replicas
          ∷ " replicas ready"
          ∷ []);
      severity = original_severity bundle;
      category = "application";
      systemic = true;
      radius = texts (
          "Deployment "
          ∷ quote name
          ∷ " — "
          ∷ decimal_int (sub_ℕ s.desired_replicas s.ready_replicas)
          ∷ " replicas affected"
          ∷ []);
      remediation =
          texts ("Check pod status: kubectl get pods -l app=" ∷ name ∷ [])
          ∷ "Review container logs for the failing pods"
          ∷ texts ("Rollback if needed: kubectl rollout undo deployment/" ∷ name ∷ [])
          ∷ "Verify image tag, environment variables, and resource limits"
          ∷ [];
      confidence = 70;
    })
    else none

unfoldable pub rule_job_deadline_exceeded : Rule
rule_job_deadline_exceeded bundle s =
    if detected_by "JobDeadlineExceeded" bundle.fault_event
    then some (record {
      rule_name = "JobDeadlineExceeded";
      root_cause =
          texts
            ("Job " ∷ quote (resource_name bundle) ∷ " exceeded its activeDeadlineSeconds" ∷ []);
      severity = warning;
      category = "application";
      systemic = false;
      radius = blast_radius bundle;
      remediation =
          "Increase the job's activeDeadlineSeconds if the workload legitimately needs more time"
          ∷ "Optimize the job's runtime or reduce data volume"
          ∷ "Check job pod logs for errors that may have caused slow execution" ∷ [];
      confidence = 70;
    })
    else none

abbrev exited : ContainerSignal → Bool
exited c = str_eq c.state_type "Terminated" && not (c.exit_code == 0)

abbrev exit_note : Option ContainerSignal → String
exit_note none = ""
exit_note (some c) =
    texts (" (container " ∷ quote c.name ∷ " exited with code " ∷ decimal c.exit_code ∷ ")" ∷ [])

unfoldable pub rule_pod_failed : Rule
rule_pod_failed bundle s =
    if str_eq s.pod_phase "Failed" || detected_by "PodFailed" bundle.fault_event
    then some (record {
      rule_name = "PodFailed";
      root_cause = texts (
          "Pod "
          ∷ quote (resource_name bundle)
          ∷ " entered Failed state"
          ∷ exit_note (first_container exited s.container_states)
          ∷ []);
      severity = original_severity bundle;
      category = "application";
      systemic = is_super_event_systemic bundle;
      radius = blast_radius bundle;
      remediation =
          "Check container logs for error details" ∷ "Review pod events for failure reasons" ∷ [];
      confidence = 65;
    })
    else none

unfoldable pub rule_generic_crash_loop : Rule
rule_generic_crash_loop bundle s =
    let c = or_none (first_container crashed s.container_states) in
    if has_crash_loop s
    then some (record {
      rule_name = "GenericCrashLoop";
      root_cause = texts (
          "Container "
          ∷ quote c.name
          ∷ " in CrashLoopBackOff (exit code "
          ∷ decimal (last_exit_code c)
          ∷ ", "
          ∷ decimal c.restart_count
          ∷ " restarts)"
          ∷ []);
      severity = original_severity bundle;
      category = "application";
      systemic = is_super_event_systemic bundle;
      radius = blast_radius bundle;
      remediation =
          texts ("Check container logs: kubectl logs <pod> -c " ∷ c.name ∷ " --previous" ∷ [])
          ∷ "Review the container's command/entrypoint and environment variables"
          ∷ "Verify dependencies (databases, services) are reachable"
          ∷ [];
      confidence = 50;
    })
    else none

abbrev pub log_verdict : DiagnosticBundle → LogErrorSignal → Verdict
log_verdict bundle le = record {
  rule_name = "GenericFromLogs";
  root_cause = texts (
      "Application error detected in logs"
      ∷ followed_by ": " (first_non_empty_line le.snippet)
      ∷ []);
  severity = original_severity bundle;
  category = log_pattern_category le.pattern;
  systemic = is_super_event_systemic bundle;
  radius = blast_radius bundle;
  remediation =
      "Review application logs for the full error context"
      ∷ "Check application configuration and dependencies" ∷ [];
  confidence = 50;
}

unfoldable pub rule_generic_from_logs : Rule
rule_generic_from_logs bundle s = elim (first_error s.log_errors) [
  | none ↦ none
  | some le ↦ some (log_verdict bundle le)
]

abbrev fallback_cause : Option SuperEvent → Option FaultEvent → String
fallback_cause (some se) fe = texts (
    "Correlated fault ("
    ∷ se.correlation_rule
    ∷ ") involving "
    ∷ decimal (length se.fault_events)
    ∷ " events"
    ∷ [])
fallback_cause none (some fe) =
    texts ("Fault detected by " ∷ fe.detector_name ∷ ": " ∷ truncate fe.description 200 ∷ [])
fallback_cause none none = "Fault detected"

unfoldable pub rule_fallback : DiagnosticBundle → DiagnosticSignals → Verdict
rule_fallback bundle s = record {
  rule_name = "Fallback";
  root_cause = fallback_cause bundle.super_event bundle.fault_event;
  severity = original_severity bundle;
  category = "unknown";
  systemic = is_super_event_systemic bundle;
  radius = blast_radius bundle;
  remediation = "Review the attached diagnostic data for details" ∷ [];
  confidence = 30;
}
