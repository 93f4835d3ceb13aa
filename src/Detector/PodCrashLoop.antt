-- ===== src/Detector/PodCrashLoop.antt =====
-- internal/detector/pod_crashloop.go.
use wormsign.Common.{
  String, Bool, false, ◌&&◌, ◌*◌, List, [], ◌∷◌, ◌++◌, Option, some, str_eq, if◌then◌else◌, Result,
}
use wormsign.Common.Int.{ℤ, ltb_ℤ}
use wormsign.Common.Duration.{minute}
use wormsign.Common.Text.{texts, decimal_int, quote}
use wormsign.Model.{StringMap, warning}
use wormsign.Detector.Base.Defs.{BaseDetector, ConfigError, Reads, emit}
use wormsign.Detector.Outcome.{Outcome, over_base, quiet, positive_or, on_base, ref_to}

pub record ContainerStatus : Type 0 where
  pub name : String
  pub restart_count : ℤ
  pub waiting : Bool
  pub waiting_reason : String

pub record PodContainerState : Type 0 where
  pub name : String
  pub namespace : String
  pub uid : String
  pub labels : Option StringMap
  pub annotations : Option StringMap
  pub container_statuses : List ContainerStatus
  pub init_container_statuses : List ContainerStatus

pub record PodCrashLoop : Type 0 where
  pub base : BaseDetector
  pub threshold : ℤ

unfoldable pub new_pod_crash_loop : ℤ → ℤ → Bool → Result ConfigError PodCrashLoop
unfolding on_base
new_pod_crash_loop threshold cooldown callback =
    on_base "PodCrashLoop" warning (positive_or (30 * minute) cooldown) callback
      (λ b. record { base = b; threshold = positive_or 3 threshold })

unfoldable pub is_crash_looping : PodCrashLoop → ContainerStatus → Bool
is_crash_looping d c =
    if ltb_ℤ c.restart_count d.threshold
    then false
    else c.waiting && str_eq c.waiting_reason "CrashLoopBackOff"

-- The emission for a container that is crash looping.
abbrev pub report :
    PodCrashLoop → Reads → PodContainerState → ContainerStatus → Outcome PodCrashLoop
report d reads pod c =
    over_base (λ b. record d { base = b })
      (emit d.base reads (ref_to "Pod" pod.namespace pod.name pod.uid)
        (texts (
          "Pod "
          ∷ pod.namespace
          ∷ "/"
          ∷ pod.name
          ∷ " container "
          ∷ quote c.name
          ∷ " is in CrashLoopBackOff with "
          ∷ decimal_int c.restart_count
          ∷ " restarts (threshold: "
          ∷ decimal_int d.threshold
          ∷ ")"
          ∷ []))
        pod.labels
        (some (("container", c.name) ∷ ("restartCount", decimal_int c.restart_count) ∷ [])))

-- The loop of `Check`.
unfoldable pub check_statuses :
    PodCrashLoop → Reads → PodContainerState → List ContainerStatus → Outcome PodCrashLoop
unfolding is_crash_looping
check_statuses d reads pod [] = quiet d
check_statuses d reads pod (c ∷ cs) =
    let rest = check_statuses d reads pod cs in
    if is_crash_looping d c then report d reads pod c else rest

unfoldable pub check : PodCrashLoop → Reads → PodContainerState → Outcome PodCrashLoop
unfolding check_statuses
check d reads pod =
    check_statuses d reads pod (pod.container_statuses ++ pod.init_container_statuses)
