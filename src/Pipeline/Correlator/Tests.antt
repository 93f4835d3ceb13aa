-- ===== src/Pipeline/Correlator/Tests.antt =====
-- Runs of the correlator, and its theorems at a window with a failing node.
use mathlib.Core.List.Perm
use wormsign.Common.{
  ℕ, ◌≡◌, ◌≤◌, refl, All, String, Bool, true, List, [], ◌∷◌, ◌++◌, Option, some, eq_iff, str_eq, ok,
  length, arith,
}
use wormsign.Common.Counting.{count}
use wormsign.Common.Removal.{IsDistinct}
use wormsign.Common.Order.{MapOrder}
use wormsign.Common.Keys.{string_eq}
use wormsign.Common.Maps.{lookup, insert}
use wormsign.Model.{FaultEvent, critical, warning, new_super_event}
use wormsign.Pipeline.Correlator.Config.{default_config, validate_config}
use wormsign.Pipeline.Correlator.Defs.{
  evaluate, evaluate_rules, evaluate_node_cascade, evaluate_deployment_rollout,
  evaluate_storage_cascade, evaluate_namespace_storm, emit, emit_groups, cascade_groups,
  plain_groups, node_key, node_pod_key, deployment_key, pvc_key, pvc_pod_key, namespace_key,
}
use wormsign.Pipeline.Correlator.Emission.{correlated, event_id}
use wormsign.Pipeline.Correlator.Partition.{evaluate_partition}
use wormsign.Pipeline.Correlator.Explained.{IsExplained, evaluate-IsExplained}
use wormsign.Pipeline.Correlator.Quiet.{evaluate_quiet}
use wormsign.Pipeline.Correlator.Engine.{
  Correlator, Op, submits, ticks, new_correlator, run, evaluate_and_emit, emitted, run_delivers,
}

abbrev as_inserted : MapOrder
as_inserted = record { visit = λ A xs. xs; visit-perm = λ A xs. Perm.refl xs }

abbrev fresh_id : ℕ → Option String
fresh_id n = some "super"

abbrev at_zero : ℕ → ℕ
at_zero n = 0

abbrev node_down : FaultEvent
node_down = record {
  id = "a";
  detector_name = "NodeNotReady";
  severity = critical;
  timestamp = 0;
  resource = record { kind = "Node"; namespace = ""; name = "n1"; uid = "u1" };
  description = "";
  labels = [];
  annotations = [];
}

abbrev pod_failed : String → FaultEvent
pod_failed id = record {
  id = id;
  detector_name = "PodFailed";
  severity = warning;
  timestamp = 0;
  resource = record { kind = "Pod"; namespace = "shop"; name = id; uid = id };
  description = "";
  labels = [];
  annotations = ("wormsign.io/node-name", "n1") ∷ [];
}

abbrev window : List FaultEvent
window = node_down ∷ pod_failed "b" ∷ pod_failed "c" ∷ []

window-IsDistinct : IsDistinct event_id window
window-IsDistinct i = ground (
  arith,
  eq_iff i "a",
  eq_iff i "b",
  eq_iff i "c",
  eq_iff "a" "b",
  eq_iff "a" "c",
  eq_iff "b" "c",
)

-- The node and its two pods become one super-event.
window_correlates :
    length (evaluate as_inserted fresh_id at_zero default_config.rules window 0).0.super_events ≡ 1
unfolding evaluate evaluate_rules evaluate_node_cascade evaluate_deployment_rollout
    evaluate_storage_cascade evaluate_namespace_storm emit_groups emit cascade_groups plain_groups
    node_key node_pod_key deployment_key pvc_key pvc_pod_key namespace_key new_super_event lookup
    insert default_config
window_correlates = refl

evaluate_partition_example :
    let result = (evaluate as_inserted fresh_id at_zero default_config.rules window 0).0 in
    count (λ e. str_eq e.id "b") (correlated result.super_events ++ result.uncorrelated_events) ≡ 1
evaluate_partition_example =
    evaluate_partition as_inserted fresh_id at_zero window window-IsDistinct default_config.rules 0
      (λ e. str_eq e.id "b")

abbrev started : Correlator
started = record { config = default_config; buffer = []; calls = 0; delivered = [] }

started_new : new_correlator default_config true true ≡ ok started
unfolding new_correlator validate_config default_config
started_new = refl

abbrev two_windows : List Op
two_windows = submits node_down ∷ submits (pod_failed "b") ∷ ticks ∷ submits (pod_failed "c") ∷ []

run_delivers_example :
    let end =
      evaluate_and_emit as_inserted fresh_id at_zero
        (run as_inserted fresh_id at_zero started two_windows) in
    (end.buffer ≡ []) × ((p : FaultEvent → Bool) → count p (emitted end) ≡ count p window)
run_delivers_example =
    run_delivers as_inserted fresh_id at_zero default_config true true started two_windows
      started_new window-IsDistinct

-- The super-event of the window, under the default configuration.
evaluate-IsExplained_example :
    All
      (IsExplained default_config.rules)
      (evaluate as_inserted fresh_id at_zero default_config.rules window 0).0.super_events
evaluate-IsExplained_example =
    evaluate-IsExplained as_inserted fresh_id at_zero default_config.rules window 0

-- No more than the 20 events that the default configuration lets pass are left in one namespace.
evaluate_quiet_example :
    count
      (λ e. str_eq e.resource.namespace "shop")
      (evaluate as_inserted
        (λ n. some "super")
        at_zero
        default_config.rules
        window
        0).0.uncorrelated_events
    ≤ 20
unfolding default_config
evaluate_quiet_example =
    evaluate_quiet as_inserted (λ n. "super") at_zero default_config.rules window 0 20 "shop" refl
      refl refl
