-- ===== src/Detector/PodFailed.antt =====
-- internal/detector/pod_failed.go. The set of ignored exit codes is a list.
use wormsign.Common.{
  ◌*◌, String, Bool, not, ◌&&◌, List, [], ◌∷◌, Option, none, some, any, str_eq, if◌then◌else◌,
  Result,
}
use wormsign.Common.Int.{ℤ, ltb_ℤ}
use wormsign.Common.Duration.{minute}
use wormsign.Common.Text.{texts, decimal_int, quote}
use wormsign.Model.{StringMap, warning, is_empty}
use wormsign.Detector.Base.Defs.{BaseDetector, ConfigError, Reads, emit}
use wormsign.Detector.Outcome.{Outcome, over_base, quiet, positive_or, on_base, ref_to}

pub record ContainerTermination : Type 0 where
  pub name : String
  pub exit_code : ℤ
  pub reason : String

pub record PodFailedState : Type 0 where
  pub name : String
  pub namespace : String
  pub uid : String
  pub phase : String
  pub labels : Option StringMap
  pub annotations : Option StringMap
  pub terminations : List ContainerTermination

pub record PodFailed : Type 0 where
  pub base : BaseDetector
  pub ignore_exit_codes : List ℤ

unfoldable pub new_pod_failed : List ℤ → ℤ → Bool → Result ConfigError PodFailed
unfolding on_base
new_pod_failed ignored cooldown callback =
    on_base "PodFailed" warning (positive_or (30 * minute) cooldown) callback
      (λ b. record { base = b; ignore_exit_codes = ignored })

abbrev pub same_int : ℤ → ℤ → Bool
same_int a b = not (ltb_ℤ a b) && not (ltb_ℤ b a)

unfoldable pub ignores_exit_code : PodFailed → ℤ → Bool
ignores_exit_code d code = any (same_int code) d.ignore_exit_codes

unfoldable pub emit_for_pod : PodFailed → Reads → PodFailedState → String → Outcome PodFailed
emit_for_pod d reads pod reason =
    over_base (λ b. record d { base = b })
      (emit d.base reads (ref_to "Pod" pod.namespace pod.name pod.uid)
        (texts ("Pod " ∷ pod.namespace ∷ "/" ∷ pod.name ∷ ": " ∷ reason ∷ [])) pod.labels none)

-- The emission for a container that exited.
abbrev pub report : PodFailed → Reads → PodFailedState → ContainerTermination → Outcome PodFailed
report d reads pod c =
    let reason : String = if is_empty c.reason then "Unknown" else c.reason in
    over_base (λ b. record d { base = b })
      (emit d.base reads (ref_to "Pod" pod.namespace pod.name pod.uid)
        (texts (
          "Pod "
          ∷ pod.namespace
          ∷ "/"
          ∷ pod.name
          ∷ " container "
          ∷ quote c.name
          ∷ " exited with code "
          ∷ decimal_int c.exit_code
          ∷ " (reason: "
          ∷ reason
          ∷ ")"
          ∷ []))
        pod.labels
        (some (
          ("container", c.name) ∷ ("exitCode", decimal_int c.exit_code) ∷ ("reason", reason) ∷ [])))

-- The loop of `Check`.
unfoldable pub check_terminations :
    PodFailed → Reads → PodFailedState → List ContainerTermination → Outcome PodFailed
unfolding ignores_exit_code
check_terminations d reads pod [] = quiet d
check_terminations d reads pod (c ∷ cs) =
    let rest = check_terminations d reads pod cs in
    if ignores_exit_code d c.exit_code then rest else report d reads pod c

unfoldable pub check : PodFailed → Reads → PodFailedState → Outcome PodFailed
unfolding check_terminations emit_for_pod
check d reads pod =
    if str_eq pod.phase "Failed"
    then emit_for_pod d reads pod "Pod phase is Failed"
    else check_terminations d reads pod pod.terminations
