-- ===== src/Controller/Start.antt =====
-- internal/controller/detectors.go: the making of the bridge, from the part of internal/config/config.go on the
-- detectors, and the namespaces that it is wired to. Whether a namespace has a factory of informers is a
-- parameter; the factories themselves are not modelled.
use wormsign.Common.{
  ℕ, ◌+◌, ◌-◌, ◌%◌, String, Bool, true, false, not, List, [], ◌∷◌, ◌++◌, Option, none, some, map,
  keep, any, ltb, str_eq, if◌then◌else◌, Result, ok, err,
}
use wormsign.Common.Int.{ℤ, pos, negsuc}
use wormsign.Detector.Base.Defs.{ConfigError}
use wormsign.Detector.PodCrashLoop.{new_pod_crash_loop}
use wormsign.Detector.PodFailed.{new_pod_failed}
use wormsign.Detector.PodStuckPending.{new_pod_stuck_pending}
use wormsign.Detector.JobDeadlineExceeded.{new_job_deadline_exceeded}
use wormsign.Detector.PvcStuckBinding.{new_pvc_stuck_binding}
use wormsign.Controller.Bridge.{DetectorBridge, is_enabled}

-- The threshold of a detector is a number or a duration; a cooldown is a duration.
pub record DetectorConfig : Type 0 where
  pub enabled : Bool
  pub threshold : ℤ
  pub cooldown : ℤ

pub record PodFailedDetectorConfig : Type 0 where
  pub enabled : Bool
  pub ignore_exit_codes : List ℤ
  pub cooldown : ℤ

pub record JobDeadlineDetectorConfig : Type 0 where
  pub enabled : Bool
  pub cooldown : ℤ

pub record DetectorsConfig : Type 0 where
  pub pod_stuck_pending : DetectorConfig
  pub pod_crash_loop : DetectorConfig
  pub pod_failed : PodFailedDetectorConfig
  pub node_not_ready : DetectorConfig
  pub pvc_stuck_binding : DetectorConfig
  pub high_pod_count : DetectorConfig
  pub job_deadline_exceeded : JobDeadlineDetectorConfig

-- `int32(n)`
abbrev wrapped : ℕ → ℤ
wrapped m = if ltb m 2147483648 then pos m else negsuc (4294967295 - m)

unfoldable pub to_int32 : ℤ → ℤ
to_int32 (pos n) = wrapped (n % 4294967296)
to_int32 (negsuc n) = wrapped (4294967295 - n % 4294967296)

-- A detector that is enabled is made, and one that cannot be made is an error.
abbrev when_enabled : {D : Type 0} → Bool → Result ConfigError D → Result ConfigError (Option D)
when_enabled false made = ok none
when_enabled true (err e) = err e
when_enabled true (ok d) = ok (some d)

abbrev and_then :
    {A B : Type 0} → Result ConfigError A → (A → Result ConfigError B) → Result ConfigError B
and_then (err e) f = err e
and_then (ok a) f = f a

unfoldable pub new_detector_bridge : DetectorsConfig → Result ConfigError DetectorBridge
new_detector_bridge dc =
    and_then
      (when_enabled dc.pod_crash_loop.enabled
        (new_pod_crash_loop (to_int32 dc.pod_crash_loop.threshold) dc.pod_crash_loop.cooldown true))
      (λ crash_loop.
        and_then
          (when_enabled dc.pod_failed.enabled (
            new_pod_failed (map to_int32 dc.pod_failed.ignore_exit_codes) dc.pod_failed.cooldown
              true))
          (λ failed.
            and_then
              (when_enabled dc.pod_stuck_pending.enabled (
                new_pod_stuck_pending dc.pod_stuck_pending.threshold dc.pod_stuck_pending.cooldown
                  true))
              (λ pending.
                and_then
                  (when_enabled dc.job_deadline_exceeded.enabled
                    (new_job_deadline_exceeded dc.job_deadline_exceeded.cooldown true))
                  (λ job.
                    and_then
                      (when_enabled dc.pvc_stuck_binding.enabled (
                        new_pvc_stuck_binding dc.pvc_stuck_binding.threshold
                          dc.pvc_stuck_binding.cooldown true))
                      (λ claim. ok (record {
                        crash_loop = crash_loop;
                        pod_failed = failed;
                        stuck_pending = pending;
                        job_deadline = job;
                        pvc_stuck_binding = claim;
                        resource_cache = [];
                      }))))))

abbrev one_if : Bool → ℕ
one_if b = if b then 1 else 0

unfoldable pub detector_count : DetectorBridge → ℕ
detector_count b =
    one_if (is_enabled b.crash_loop)
    + one_if (is_enabled b.pod_failed)
    + one_if (is_enabled b.stuck_pending)
    + one_if (is_enabled b.job_deadline)
    + one_if (is_enabled b.pvc_stuck_binding)

abbrev pub is_wired : String → List String → Bool
is_wired ns wired = any (λ w. str_eq w ns) wired

-- The loop over the added namespaces.
unfoldable pub wire_added : (String → Bool) → List String → List String → List String
wire_added has_factory wired [] = wired
wire_added has_factory wired (ns ∷ added) =
    wire_added has_factory
      (if is_wired ns wired then wired else if has_factory ns then wired ++ ns ∷ [] else wired)
      added

-- `HandleShardChange`: the wired namespaces after it.
unfoldable pub handle_shard_change :
    (String → Bool) → List String → List String → List String → List String
unfolding wire_added
handle_shard_change has_factory wired added removed =
    wire_added has_factory (keep (λ w. not (is_wired w removed)) wired) added
