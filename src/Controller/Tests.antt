-- ===== src/Controller/Tests.antt =====
-- A run of the bridge, and the theorem about it at this run.
use mathlib.Core.List.Perm
use wormsign.Common.{ℕ, ◌≡◌, refl, String, true, List, [], ◌∷◌, none, some, map, keep, str_eq, ok}
use wormsign.Common.Int.{pos}
use wormsign.Common.Order.{MapOrder}
use wormsign.Common.Keys.{string_eq}
use wormsign.Common.Maps.{lookup, insert}
use wormsign.Common.Text.{decimal_int, decimal, digits}
use wormsign.Model.{warning, new_fault_event}
use wormsign.Detector.Base.Defs.{BaseDetector, Reads, emit, should_fire, new_base_detector}
use wormsign.Pipeline.Correlator.Config.{default_config}
use wormsign.Pipeline.Correlator.Defs.{evaluate}
use wormsign.Detector.Outcome.{on_base}
use wormsign.Detector.PodCrashLoop.{new_pod_crash_loop}
use wormsign.Detector.PodFailed.{new_pod_failed}
use wormsign.Detector.PodStuckPending.{new_pod_stuck_pending}
use wormsign.Detector.JobDeadlineExceeded.{new_job_deadline_exceeded}
use wormsign.Detector.PvcStuckBinding.{new_pvc_stuck_binding}
use wormsign.Detector.PodCrashLoop as CrashLoop
use wormsign.Detector.PodFailed as Failed
use wormsign.Detector.PodStuckPending as StuckPending
use wormsign.Controller.Objects.{
  Pod, to_crash_loop_state, status_of, to_failed_state, terminations_of, to_pending_state,
  resolve_owner_deployment, owner_deployment, before_last,
}
use wormsign.Controller.Bridge.{
  DetectorBridge, Op, sees_pod, checked, callback, submission, enrich, check_pod, step, run,
}
use wormsign.Controller.Start.{DetectorConfig, DetectorsConfig, new_detector_bridge, to_int32}
use wormsign.Controller.Cascades.{without_cascades, run-without_cascades}

abbrev on : DetectorConfig
on = record { enabled = true; threshold = pos 0; cooldown = pos 0 }

abbrev everything : DetectorsConfig
everything = record {
  pod_stuck_pending = on;
  pod_crash_loop = on;
  pod_failed = record { enabled = true; ignore_exit_codes = pos 0 ∷ []; cooldown = pos 0 };
  node_not_ready = on;
  pvc_stuck_binding = on;
  high_pod_count = on;
  job_deadline_exceeded = record { enabled = true; cooldown = pos 0 };
}

abbrev base_named : String → BaseDetector
base_named name = record {
  name = name;
  severity = warning;
  cooldown = 1800000000000;
  last_fired = [];
}

abbrev bridge : DetectorBridge
bridge = record {
  crash_loop = some (record { base = base_named "PodCrashLoop"; threshold = pos 3 });
  pod_failed = some (record { base = base_named "PodFailed"; ignore_exit_codes = pos 0 ∷ [] });
  stuck_pending = some (record { base = base_named "PodStuckPending"; threshold = 900000000000 });
  job_deadline = some (record { base = base_named "JobDeadlineExceeded" });
  pvc_stuck_binding =
      some (record { base = base_named "PVCStuckBinding"; threshold = 600000000000 });
  resource_cache = [];
}

-- What is configured as 0 gets its default; the detectors of nodes and of namespaces are not made.
made_from_defaults : new_detector_bridge everything ≡ ok bridge
unfolding new_detector_bridge to_int32 on_base new_base_detector new_pod_crash_loop new_pod_failed
    new_pod_stuck_pending new_job_deadline_exceeded new_pvc_stuck_binding
made_from_defaults = refl

abbrev crashing : Pod
crashing = record {
  name = "web-0";
  namespace = "shop";
  uid = "u1";
  labels = none;
  annotations = none;
  creation_timestamp = 5;
  owner_references = record { kind = "ReplicaSet"; name = "web-6f7d" } ∷ [];
  node_name = "n1";
  phase = "Running";
  container_statuses =
      record {
        name = "app";
        restart_count = pos 4;
        waiting = some "CrashLoopBackOff";
        terminated = none;
      }
      ∷ [];
  init_container_statuses = [];
}

abbrev at : ℕ → Reads
at n = record { checked_at = n; recorded_at = n; created_at = n; uuid = some "e1" }

abbrev seen : List Op
seen = sees_pod (record { now = 9; crash_loop = at 9; failed = at 9; pending = at 9 }) crashing ∷ []

-- The event of the crashing pod, enriched.
seen_annotations :
    map (λ x. x.0.annotations) (run bridge seen)
    ≡ (("container", "app")
        ∷ ("restartCount", "4")
        ∷ ("wormsign.io/node-name", "n1")
        ∷ ("wormsign.io/owner-deployment", "web")
        ∷ [])
      ∷ []
unfolding run step check_pod checked callback submission enrich CrashLoop.check
    CrashLoop.check_statuses CrashLoop.is_crash_looping to_crash_loop_state status_of emit
    should_fire lookup insert new_fault_event decimal_int decimal digits Failed.check
    Failed.check_terminations to_failed_state terminations_of StuckPending.check to_pending_state
    resolve_owner_deployment owner_deployment before_last
seen_annotations = refl

abbrev in_order : MapOrder
in_order = record { visit = λ A xs. xs; visit-perm = λ A xs. Perm.refl xs }

run-without_cascades_example :
    let events = keep (λ e. str_eq e.resource.name "web-0") (map (λ x. x.0) (run bridge seen)) in
    evaluate in_order (λ n. some "s") (λ n. n) default_config.rules events 0
    ≡ evaluate in_order (λ n. some "s") (λ n. n) (without_cascades default_config.rules) events 0
run-without_cascades_example =
    run-without_cascades in_order (λ n. some "s") (λ n. n) default_config.rules bridge seen
      (λ e. str_eq e.resource.name "web-0") 0
