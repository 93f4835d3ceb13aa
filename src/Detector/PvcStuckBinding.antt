-- ===== src/Detector/PvcStuckBinding.antt =====
-- internal/detector/pvc_stuck_binding.go. `now` is the clock of the check.
use wormsign.Common.{
  ℕ, ◌+◌, ◌-◌, ◌*◌, String, Bool, not, [], ◌∷◌, Option, some, ltb, str_eq, if◌then◌else◌, Result,
}
use wormsign.Common.Int.{ℤ, pos_part}
use wormsign.Common.Duration.{minute, round_second, show_duration}
use wormsign.Common.Text.{texts}
use wormsign.Model.{StringMap, warning, is_empty}
use wormsign.Detector.Base.Defs.{BaseDetector, ConfigError, Reads, emit}
use wormsign.Detector.Outcome.{Outcome, over_base, quiet, positive_or, on_base, ref_to}

pub record PvcState : Type 0 where
  pub name : String
  pub namespace : String
  pub uid : String
  pub phase : String
  pub creation_timestamp : ℕ
  pub storage_class_name : String
  pub labels : Option StringMap
  pub annotations : Option StringMap

pub record PvcStuckBinding : Type 0 where
  pub base : BaseDetector
  pub threshold : ℕ

unfoldable pub new_pvc_stuck_binding : ℤ → ℤ → Bool → Result ConfigError PvcStuckBinding
unfolding on_base
new_pvc_stuck_binding threshold cooldown callback =
    on_base "PVCStuckBinding" warning (positive_or (30 * minute) cooldown) callback
      (λ b. record { base = b; threshold = pos_part (positive_or (10 * minute) threshold) })

unfoldable pub check : PvcStuckBinding → ℕ → Reads → PvcState → Outcome PvcStuckBinding
check d now reads pvc =
    if not (str_eq pvc.phase "Pending")
    then quiet d
    else if ltb now (pvc.creation_timestamp + d.threshold)
    then quiet d
    else over_base (λ b. record d { base = b })
        (emit d.base reads (ref_to "PersistentVolumeClaim" pvc.namespace pvc.name pvc.uid)
          (texts (
            "PVC "
            ∷ pvc.namespace
            ∷ "/"
            ∷ pvc.name
            ∷ " has been Pending for "
            ∷ show_duration (round_second (now - pvc.creation_timestamp))
            ∷ " (threshold: "
            ∷ show_duration d.threshold
            ∷ ")"
            ∷ []))
          pvc.labels
          (some (
            if is_empty pvc.storage_class_name
            then []
            else ("storageClass", pvc.storage_class_name) ∷ [])))
