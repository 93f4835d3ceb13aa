-- ===== src/Analyzer/Rules/Evidence.antt =====
-- internal/analyzer/rules.go: the helpers of the rules, and `buildEvidence`. `truncate` counts characters,
-- as the source does on ASCII.
use Prim.Native.String.{len, slice}
use wormsign.Common.{
  ℕ, ◌-◌, String, Bool, true, false, not, ◌||◌, List, [], ◌∷◌, Option, none, some, map, leb, ◌==◌,
  str_eq, length, any, if◌then◌else◌,
}
use wormsign.Common.Text.{texts, decimal, trim_space}
use wormsign.Model.{ResourceRef, FaultEvent, SuperEvent, DiagnosticBundle, is_empty, is_nil}
use wormsign.Analyzer.Rules.Signals.{
  ContainerSignal, EventSignal, LogErrorSignal, DiagnosticSignals,
}
use wormsign.Analyzer.Rules.Sections.{lines_of}
use wormsign.Analyzer.Rules.Logs.{is_block_header}

unfoldable pub has_crash_loop : DiagnosticSignals → Bool
has_crash_loop s = any (λ c. str_eq c.state_reason "CrashLoopBackOff") s.container_states

unfoldable pub last_exit_code : ContainerSignal → ℕ
last_exit_code c = if c.exit_code == 0 then c.last_term_exit_code else c.exit_code

abbrev pub name_of : Option SuperEvent → Option FaultEvent → String
name_of (some se) fe = se.primary_resource.name
name_of none (some fe) = fe.resource.name
name_of none none = ""

unfoldable pub resource_name : DiagnosticBundle → String
resource_name bundle = name_of bundle.super_event bundle.fault_event

abbrev pub is_super : Option SuperEvent → Bool
is_super none = false
is_super (some se) = true

unfoldable pub is_super_event_systemic : DiagnosticBundle → Bool
is_super_event_systemic bundle = is_super bundle.super_event

abbrev pub events_affected : Option SuperEvent → String
events_affected none = ""
events_affected (some se) = texts (decimal (length se.fault_events) ∷ " resources affected" ∷ [])

unfoldable pub blast_radius : DiagnosticBundle → String
blast_radius bundle = events_affected bundle.super_event

abbrev pub resource_key : ResourceRef → String
resource_key r = texts (r.kind ∷ "/" ∷ r.namespace ∷ "/" ∷ r.name ∷ [])

-- The loop of `bundleRelatedResources`: the resources whose key was not seen yet.
unfoldable pub unseen_resources : List String → List FaultEvent → List ResourceRef
unseen_resources seen [] = []
unseen_resources seen (fe ∷ fes) =
    let key = resource_key fe.resource in
    let known = unseen_resources seen fes in
    let found = fe.resource ∷ unseen_resources (key ∷ seen) fes in
    if any (λ k. str_eq k key) seen then known else found

abbrev pub related_of : Option SuperEvent → List ResourceRef
unfolding unseen_resources
related_of none = []
related_of (some se) = unseen_resources [] se.fault_events

unfoldable pub bundle_related_resources : DiagnosticBundle → List ResourceRef
bundle_related_resources bundle = related_of bundle.super_event

unfoldable pub truncate : String → ℕ → String
truncate s max_len = if leb (len s) max_len then s else texts (slice s 0 (max_len - 3) ∷ "..." ∷ [])

unfoldable pub first_shown : List String → String
first_shown [] = ""
first_shown (line ∷ lines) =
    let rest = first_shown lines in
    let trimmed = trim_space line in
    if is_empty trimmed || is_block_header trimmed then rest else trimmed

unfoldable pub first_non_empty_line : String → String
unfolding first_shown
first_non_empty_line text = first_shown (lines_of text)

abbrev when_shown : Bool → List String → String
when_shown shown ts = if shown then texts ts else ""

abbrev pub each_text {ℓ} : {A : Type ℓ} → (A → String) → List A → String
each_text f xs = texts (map f xs)

container_evidence : ContainerSignal → String
container_evidence c = texts (
    "  "
    ∷ c.name
    ∷ ": state="
    ∷ c.state_type
    ∷ " reason="
    ∷ c.state_reason
    ∷ " exitCode="
    ∷ decimal c.exit_code
    ∷ " restarts="
    ∷ decimal c.restart_count
    ∷ when_shown (not (is_empty c.last_term_reason))
        (" lastTerm=" ∷ c.last_term_reason ∷ "(" ∷ decimal c.last_term_exit_code ∷ ")" ∷ [])
    ∷ "\n"
    ∷ [])

event_evidence : EventSignal → String
unfolding truncate
event_evidence e =
    texts ("  [" ∷ e.event_type ∷ "] " ∷ e.reason ∷ ": " ∷ truncate e.message 200 ∷ "\n" ∷ [])

log_evidence : LogErrorSignal → String
log_evidence e = texts (
    "  Pattern: "
    ∷ e.pattern
    ∷ "\n"
    ∷ "  ---\n"
    ∷ each_text (λ line. texts ("  " ∷ line ∷ "\n" ∷ [])) (lines_of e.snippet)
    ∷ "  ---\n"
    ∷ [])

unfoldable pub build_evidence : String → DiagnosticSignals → String
unfolding container_evidence event_evidence log_evidence
build_evidence rule_name s = texts (
    "Rule: "
    ∷ rule_name
    ∷ "\n"
    ∷ when_shown (not (is_empty s.pod_phase)) ("Pod Phase: " ∷ s.pod_phase ∷ "\n" ∷ [])
    ∷ when_shown (not (is_nil s.container_states))
        ("\nContainer States:\n" ∷ each_text container_evidence s.container_states ∷ [])
    ∷ when_shown (not (is_nil s.event_messages))
        ("\nKubernetes Events:\n" ∷ each_text event_evidence s.event_messages ∷ [])
    ∷ when_shown (not (is_nil s.log_errors))
        ("\nLog Error Patterns:\n" ∷ each_text log_evidence s.log_errors ∷ [])
    ∷ when_shown (not (is_empty s.deployment_name)) (
        "\nDeployment: "
        ∷ s.deployment_name
        ∷ " (desired="
        ∷ decimal s.desired_replicas
        ∷ ", ready="
        ∷ decimal s.ready_replicas
        ∷ ", available="
        ∷ decimal s.available_replicas
        ∷ ")\n"
        ∷ when_shown (not (is_empty s.rollout_condition))
            ("  Condition: " ∷ s.rollout_condition ∷ "\n" ∷ [])
        ∷ [])
    ∷ when_shown (not (is_empty s.pvc_phase)) (
        "\nPVC Phase: "
        ∷ s.pvc_phase
        ∷ when_shown (not (is_empty s.storage_class))
            (" (StorageClass: " ∷ s.storage_class ∷ ")" ∷ [])
        ∷ "\n"
        ∷ [])
    ∷ when_shown (s.node_not_ready || (s.memory_pressure || s.disk_pressure)) (
        "\nNode Conditions:"
        ∷ when_shown s.node_not_ready (" NotReady" ∷ [])
        ∷ when_shown s.memory_pressure (" MemoryPressure" ∷ [])
        ∷ when_shown s.disk_pressure (" DiskPressure" ∷ [])
        ∷ "\n"
        ∷ [])
    ∷ [])
