-- ===== src/Detector/PodStuckPending.antt =====
-- internal/detector/pod_stuck_pending.go. `now` is the clock of the check.
use wormsign.Common.{
  ℕ, ◌+◌, ◌-◌, ◌*◌, String, Bool, not, [], ◌∷◌, Option, none, ltb, str_eq, if◌then◌else◌, Result,
}
use wormsign.Common.Int.{ℤ, pos_part}
use wormsign.Common.Duration.{minute, round_second, show_duration}
use wormsign.Common.Text.{texts}
use wormsign.Model.{StringMap, warning}
use wormsign.Detector.Base.Defs.{BaseDetector, ConfigError, Reads, emit}
use wormsign.Detector.Outcome.{Outcome, over_base, quiet, positive_or, on_base, ref_to}

pub record PodState : Type 0 where
  pub name : String
  pub namespace : String
  pub uid : String
  pub phase : String
  pub creation_timestamp : ℕ
  pub labels : Option StringMap
  pub annotations : Option StringMap

pub record PodStuckPending : Type 0 where
  pub base : BaseDetector
  pub threshold : ℕ

unfoldable pub new_pod_stuck_pending : ℤ → ℤ → Bool → Result ConfigError PodStuckPending
unfolding on_base
new_pod_stuck_pending threshold cooldown callback =
    on_base "PodStuckPending" warning (positive_or (30 * minute) cooldown) callback
      (λ b. record { base = b; threshold = pos_part (positive_or (15 * minute) threshold) })

unfoldable pub check : PodStuckPending → ℕ → Reads → PodState → Outcome PodStuckPending
check d now reads pod =
    if not (str_eq pod.phase "Pending")
    then quiet d
    else if ltb now (pod.creation_timestamp + d.threshold)
    then quiet d
    else over_base (λ b. record d { base = b })
        (emit d.base reads (ref_to "Pod" pod.namespace pod.name pod.uid)
          (texts (
            "Pod "
            ∷ pod.namespace
            ∷ "/"
            ∷ pod.name
            ∷ " has been Pending for "
            ∷ show_duration (round_second (now - pod.creation_timestamp))
            ∷ " (threshold: "
            ∷ show_duration d.threshold
            ∷ ")"
            ∷ []))
          pod.labels none)
