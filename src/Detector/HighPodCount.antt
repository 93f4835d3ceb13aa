-- ===== src/Detector/HighPodCount.antt =====
-- internal/detector/high_pod_count.go.
use wormsign.Common.{String, Bool, [], ◌∷◌, Option, some, if◌then◌else◌, Result}
use wormsign.Common.Int.{ℤ, ltb_ℤ}
use wormsign.Common.Duration.{hour}
use wormsign.Common.Text.{texts, decimal_int}
use wormsign.Model.{StringMap, info}
use wormsign.Detector.Base.Defs.{BaseDetector, ConfigError, Reads, emit}
use wormsign.Detector.Outcome.{Outcome, over_base, quiet, positive_or, on_base, ref_to}

pub record NamespacePodCount : Type 0 where
  pub name : String
  pub uid : String
  pub pod_count : ℤ
  pub labels : Option StringMap

pub record HighPodCount : Type 0 where
  pub base : BaseDetector
  pub threshold : ℤ

unfoldable pub new_high_pod_count : ℤ → ℤ → Bool → Result ConfigError HighPodCount
unfolding on_base
new_high_pod_count threshold cooldown callback =
    on_base "HighPodCount" info (positive_or hour cooldown) callback
      (λ b. record { base = b; threshold = positive_or 200 threshold })

unfoldable pub check : HighPodCount → Reads → NamespacePodCount → Outcome HighPodCount
check d reads ns =
    if ltb_ℤ d.threshold ns.pod_count
    then over_base (λ b. record d { base = b })
        (emit d.base reads (ref_to "Namespace" "" ns.name ns.uid)
          (texts (
            "Namespace "
            ∷ ns.name
            ∷ " has "
            ∷ decimal_int ns.pod_count
            ∷ " pods (threshold: "
            ∷ decimal_int d.threshold
            ∷ ")"
            ∷ []))
          ns.labels
          (some
            (("podCount", decimal_int ns.pod_count) ∷ ("threshold", decimal_int d.threshold) ∷ [])))
    else quiet d
