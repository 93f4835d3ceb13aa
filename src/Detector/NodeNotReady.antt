-- ===== src/Detector/NodeNotReady.antt =====
-- internal/detector/node_not_ready.go. `now` is the clock of the check.
use wormsign.Common.{
  ℕ, ◌+◌, ◌-◌, ◌*◌, String, Bool, [], ◌∷◌, Option, some, ltb, str_eq, if◌then◌else◌, Result,
}
use wormsign.Common.Int.{ℤ, pos_part}
use wormsign.Common.Duration.{minute, round_second, show_duration}
use wormsign.Common.Text.{texts}
use wormsign.Model.{StringMap, critical}
use wormsign.Detector.Base.Defs.{BaseDetector, ConfigError, Reads, emit}
use wormsign.Detector.Outcome.{Outcome, over_base, quiet, positive_or, on_base, ref_to}

pub record NodeState : Type 0 where
  pub name : String
  pub uid : String
  pub ready_condition : String
  pub ready_transition_time : ℕ
  pub labels : Option StringMap
  pub annotations : Option StringMap

pub record NodeNotReady : Type 0 where
  pub base : BaseDetector
  pub threshold : ℕ

unfoldable pub new_node_not_ready : ℤ → ℤ → Bool → Result ConfigError NodeNotReady
unfolding on_base
new_node_not_ready threshold cooldown callback =
    on_base "NodeNotReady" critical (positive_or (30 * minute) cooldown) callback
      (λ b. record { base = b; threshold = pos_part (positive_or (5 * minute) threshold) })

unfoldable pub check : NodeNotReady → ℕ → Reads → NodeState → Outcome NodeNotReady
check d now reads node =
    if str_eq node.ready_condition "True"
    then quiet d
    else if ltb now (node.ready_transition_time + d.threshold)
    then quiet d
    else over_base (λ b. record d { base = b })
        (emit d.base reads (ref_to "Node" "" node.name node.uid)
          (texts (
            "Node "
            ∷ node.name
            ∷ " Ready condition is "
            ∷ node.ready_condition
            ∷ " for "
            ∷ show_duration (round_second (now - node.ready_transition_time))
            ∷ " (threshold: "
            ∷ show_duration d.threshold
            ∷ ")"
            ∷ []))
          node.labels (some (("readyCondition", node.ready_condition) ∷ [])))
