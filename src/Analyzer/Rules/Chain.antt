-- ===== src/Analyzer/Rules/Chain.antt =====
-- internal/analyzer/rules.go: the rules, in the order of `rulesChain`. What a rule puts into its report
-- is its verdict; the confidence is in hundredths.
use wormsign.Common.{
  ℕ, String, Bool, true, false, ◌&&◌, ◌||◌, List, [], ◌∷◌, ◌++◌, Option, none, some, ltb, ◌==◌,
  str_eq, any, if◌then◌else◌,
}
use wormsign.Common.Text.{texts, join_with, decimal, quote}
use wormsign.Model.{Severity, critical, warning, FaultEvent, SuperEvent, DiagnosticBundle, is_empty}
use wormsign.Analyzer.Rules.Signals.{ContainerSignal, EventSignal, DiagnosticSignals, no_container}
use wormsign.Analyzer.Rules.Evidence.{
  resource_name, is_super_event_systemic, blast_radius, truncate,
}

pub record Verdict : Type 0 where
  pub rule_name : String
  pub root_cause : String
  pub severity : Severity
  pub category : String
  pub systemic : Bool
  pub radius : String
  pub remediation : List String
  pub confidence : ℕ

abbrev pub Rule : Type 0
Rule = DiagnosticBundle → DiagnosticSignals → Option Verdict

-- The first container that passes, if any.
abbrev pub first_container :
    (ContainerSignal → Bool) → List ContainerSignal → Option ContainerSignal
first_container p [] = none
first_container p (c ∷ cs) = if p c then some c else first_container p cs

abbrev pub or_none : Option ContainerSignal → ContainerSignal
or_none none = no_container
or_none (some c) = c

-- The message of the first event with this reason, the empty text if there is none.
abbrev pub first_message : String → List EventSignal → String
first_message reason [] = ""
first_message reason (e ∷ es) =
    if str_eq e.reason reason then e.message else first_message reason es

-- The name of the detector is this one, if the bundle is about one event.
abbrev pub detected_by : String → Option FaultEvent → Bool
detected_by name none = false
detected_by name (some fe) = str_eq fe.detector_name name

abbrev pub grouped_by : String → Option SuperEvent → Bool
grouped_by rule none = false
grouped_by rule (some se) = str_eq se.correlation_rule rule

abbrev pub oom_killed : ContainerSignal → Bool
oom_killed c = str_eq c.state_reason "OOMKilled" || str_eq c.last_term_reason "OOMKilled"

-- The second test asks for more than the first one, and never passes alone.
abbrev pub oom_test : ContainerSignal → Bool
oom_test c = oom_killed c || ((c.exit_code == 137 || c.last_term_exit_code == 137) && oom_killed c)

abbrev pub oom_verdict : DiagnosticBundle → ContainerSignal → Verdict
oom_verdict bundle c = record {
  rule_name = "OOMKilled";
  root_cause = texts (
      "Container "
      ∷ quote c.name
      ∷ " was OOM-killed (exit code 137)"
      ∷ (if ltb 0 c.restart_count
          then texts ("; " ∷ decimal c.restart_count ∷ " restarts" ∷ [])
          else "")
      ∷ []);
  severity = critical;
  category = "resources";
  systemic = is_super_event_systemic bundle;
  radius = blast_radius bundle;
  remediation =
      texts ("Increase the memory limit for container " ∷ quote c.name ∷ [])
      ∷ "Profile the application's memory usage to identify leaks or unbounded caches"
      ∷ "Consider setting memory requests equal to limits to avoid node-level overcommit"
      ∷ [];
  confidence = 90;
}

unfoldable pub rule_oom_killed : Rule
rule_oom_killed bundle s = elim (first_container oom_test s.container_states) [
  | none ↦ none
  | some c ↦ some (oom_verdict bundle c)
]

unfoldable pub rule_node_not_ready : Rule
rule_node_not_ready bundle s =
    if s.node_not_ready
    then some (record {
      rule_name = "NodeNotReady";
      root_cause = "Node is not ready — kubelet or container runtime may be unhealthy";
      severity = critical;
      category = "node";
      systemic = true;
      radius = "All pods scheduled on this node may be affected";
      remediation =
          "Check kubelet logs on the affected node: journalctl -u kubelet"
          ∷ "Verify container runtime (containerd/CRI-O) is running"
          ∷ "Check node resource usage (disk, memory, PIDs)"
          ∷ "If node is unreachable, consider cordoning and draining it" ∷ [];
      confidence = 85;
    })
    else none

abbrev pressures : DiagnosticSignals → List String
pressures s =
    (if s.memory_pressure then "MemoryPressure" ∷ [] else [])
    ++ (if s.disk_pressure then "DiskPressure" ∷ [] else [])

unfoldable pub rule_node_pressure : Rule
rule_node_pressure bundle s =
    if s.memory_pressure || s.disk_pressure
    then some (record {
      rule_name = "NodePressure";
      root_cause = texts ("Node under pressure: " ∷ join_with ", " (pressures s) ∷ []);
      severity = warning;
      category = "node";
      systemic = true;
      radius = "Pods on this node may be evicted";
      remediation =
          "Investigate resource consumption on the node"
          ∷ "Clean up unused images and containers: crictl rmi --prune"
          ∷ "Consider adding more nodes to distribute workload" ∷ [];
      confidence = 80;
    })
    else none

unfoldable pub rule_pvc_stuck_pending : Rule
rule_pvc_stuck_pending bundle s =
    if str_eq s.pvc_phase "Pending" || detected_by "PVCStuckBinding" bundle.fault_event
    then some (record {
      rule_name = "PVCStuckPending";
      root_cause = texts (
          "PersistentVolumeClaim stuck in Pending state"
          ∷ (if is_empty s.storage_class
              then ""
              else texts (
                  " — StorageClass "
                  ∷ quote s.storage_class
                  ∷ " may not exist or has no provisioner"
                  ∷ []))
          ∷ []);
      severity = warning;
      category = "storage";
      systemic = is_super_event_systemic bundle;
      radius = blast_radius bundle;
      remediation =
          "Verify the StorageClass exists: kubectl get storageclass"
          ∷ "Check if a dynamic provisioner is running for the storage class"
          ∷ "Ensure there is available capacity in the storage backend"
          ∷ "For static provisioning, create a matching PersistentVolume" ∷ [];
      confidence = 85;
    })
    else none

unfoldable pub rule_scheduling_failed : Rule
rule_scheduling_failed bundle s =
    let message = first_message "FailedScheduling" s.event_messages in
    if is_empty message
    then none
    else some (record {
      rule_name = "SchedulingFailed";
      root_cause = texts ("Pod scheduling failed: " ∷ truncate message 200 ∷ []);
      severity = warning;
      category = "scheduling";
      systemic = is_super_event_systemic bundle;
      radius = blast_radius bundle;
      remediation =
          "Check node resource availability: kubectl describe nodes"
          ∷ "Review pod resource requests and limits"
          ∷ "Check for taints, affinity rules, or topology constraints that may restrict placement"
          ∷ "Consider scaling up the cluster or reducing resource requests" ∷ [];
      confidence = 80;
    })

abbrev pub pull_failed : ContainerSignal → Bool
pull_failed c =
    str_eq c.state_reason "ImagePullBackOff"
    || (str_eq c.state_reason "ErrImagePull" || str_eq c.state_reason "ErrImageNeverPull")

abbrev pub pull_verdict : DiagnosticBundle → ContainerSignal → Verdict
pull_verdict bundle c = record {
  rule_name = "ImagePullError";
  root_cause = texts (
      "Container "
      ∷ quote c.name
      ∷ " failed to pull image"
      ∷ (if is_empty c.image then "" else texts (" " ∷ quote c.image ∷ []))
      ∷ []);
  severity = warning;
  category = "configuration";
  systemic = false;
  radius = blast_radius bundle;
  remediation =
      "Verify the image name and tag are correct"
      ∷ "Check image pull secrets: kubectl get secret -o yaml"
      ∷ "Test pulling the image manually: docker pull <image>"
      ∷ "If using a private registry, ensure credentials are configured" ∷ [];
  confidence = 80;
}

unfoldable pub rule_image_pull_error : Rule
rule_image_pull_error bundle s = elim (first_container pull_failed s.container_states) [
  | none ↦ none
  | some c ↦ some (pull_verdict bundle c)
]

abbrev has_scheduling_event : List EventSignal → Bool
has_scheduling_event = any (λ e. str_eq e.reason "FailedScheduling")

unfoldable pub rule_pod_stuck_pending : Rule
rule_pod_stuck_pending bundle s =
    if str_eq s.pod_phase "Pending" || detected_by "PodStuckPending" bundle.fault_event
    then some (record {
      rule_name = "PodStuckPending";
      root_cause = texts (
          "Pod "
          ∷ quote (resource_name bundle)
          ∷ " stuck in Pending state"
          ∷ (if has_scheduling_event s.event_messages
              then texts
                  (": " ∷ truncate (first_message "FailedScheduling" s.event_messages) 150 ∷ [])
              else "")
          ∷ []);
      severity = warning;
      category = "scheduling";
      systemic = is_super_event_systemic bundle;
      radius = blast_radius bundle;
      remediation =
          "Check node resource availability: kubectl describe nodes"
          ∷ "Review pod resource requests and node selectors/affinities"
          ∷ "Look for taints or topology constraints restricting placement"
          ∷ "Consider scaling up the cluster if all nodes are at capacity" ∷ [];
      confidence = 80;
    })
    else none
