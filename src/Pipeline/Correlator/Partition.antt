-- ===== src/Pipeline/Correlator/Partition.antt =====
-- internal/pipeline/correlator: no event is lost or doubled.
use wormsign.Common.{
  ℕ, ◌≡◌, refl, ap, String, Bool, true, false, List, [], ◌∷◌, ◌++◌, Option, if◌then◌else◌, arith,
}
use wormsign.Common.Int.{ℤ}
use wormsign.Common.Counting.{count, count-append}
use wormsign.Common.Removal.{IsDistinct}
use wormsign.Common.Keys.{string_eq, pair_eq}
use wormsign.Common.Order.{MapOrder}
use wormsign.Model.{FaultEvent}
use wormsign.Pipeline.Correlator.Config.{RulesConfig}
use wormsign.Pipeline.Correlator.Defs.{
  Round, unconsumed, fewer_than, no_members, at_most, deployment_ref, namespace_ref, cascade_groups,
  plain_groups, evaluate_node_cascade, evaluate_deployment_rollout, evaluate_storage_cascade,
  evaluate_namespace_storm, evaluate_rules, evaluate, node_key, node_pod_key, pvc_key, pvc_pod_key,
  deployment_key, namespace_key,
}
use wormsign.Pipeline.Correlator.Emission.{correlated, event_id, IsBalanced, emit_groups-IsBalanced}
use wormsign.Pipeline.Correlator.Grouping.{
  plain_groups-Sub, cascade_groups-Sub, node_apart, pvc_apart,
}

module _ (order : MapOrder) (uuid : ℕ → Option String) (clock : ℕ → ℕ) (events : List FaultEvent)
    (distinct : IsDistinct event_id events) where
  node_cascade-IsBalanced :
      (n : ℤ) (r : Round)
      → IsBalanced events r
      → IsBalanced events (evaluate_node_cascade order uuid clock n events r)
  unfolding evaluate_node_cascade
  node_cascade-IsBalanced n r b =
      emit_groups-IsBalanced events uuid clock "NodeCascade" (fewer_than n)
        (cascade_groups order node_key node_pod_key (unconsumed r.consumed events)) r distinct b
        (cascade_groups-Sub order node_key node_pod_key (unconsumed r.consumed events) node_apart)

  storage_cascade-IsBalanced :
      (r : Round)
      → IsBalanced events r
      → IsBalanced events (evaluate_storage_cascade order uuid clock events r)
  unfolding evaluate_storage_cascade
  storage_cascade-IsBalanced r b =
      emit_groups-IsBalanced events uuid clock "StorageCascade" no_members
        (cascade_groups order pvc_key pvc_pod_key (unconsumed r.consumed events)) r distinct b
        (cascade_groups-Sub order pvc_key pvc_pod_key (unconsumed r.consumed events) pvc_apart)

  deployment_rollout-IsBalanced :
      (n : ℤ) (r : Round)
      → IsBalanced events r
      → IsBalanced events (evaluate_deployment_rollout order uuid clock n events r)
  unfolding evaluate_deployment_rollout
  deployment_rollout-IsBalanced n r b =
      emit_groups-IsBalanced events uuid clock "DeploymentRollout" (fewer_than n)
        (plain_groups order deployment_key deployment_ref (unconsumed r.consumed events)) r distinct
        b (plain_groups-Sub order deployment_key deployment_ref (unconsumed r.consumed events))

  namespace_storm-IsBalanced :
      (n : ℤ) (r : Round)
      → IsBalanced events r
      → IsBalanced events (evaluate_namespace_storm order uuid clock n events r)
  unfolding evaluate_namespace_storm
  namespace_storm-IsBalanced n r b =
      emit_groups-IsBalanced events uuid clock "NamespaceStorm" (at_most n)
        (plain_groups order namespace_key namespace_ref (unconsumed r.consumed events)) r distinct b
        (plain_groups-Sub order namespace_key namespace_ref (unconsumed r.consumed events))

  when :
      (b : Bool) (r r' : Round)
      → IsBalanced events r
      → IsBalanced events r'
      → IsBalanced events (if b then r' else r)
  when true r r' x y = y
  when false r r' x y = x

  evaluate_rules-IsBalanced :
      (rules : RulesConfig) (r : Round)
      → IsBalanced events r
      → IsBalanced events (evaluate_rules order uuid clock rules events r)
  unfolding evaluate_rules
  evaluate_rules-IsBalanced rules r0 b0 =
      let b1 =
        when rules.node_cascade.enabled r0 _ b0
          (node_cascade-IsBalanced rules.node_cascade.min_pod_failures r0 b0) in
      let b2 =
        when rules.deployment_rollout.enabled _ _ b1
          (deployment_rollout-IsBalanced rules.deployment_rollout.min_pod_failures _ b1) in
      let b3 = when rules.storage_cascade.enabled _ _ b2 (storage_cascade-IsBalanced _ b2) in
      when rules.namespace_storm.enabled _ _ b3
        (namespace_storm-IsBalanced rules.namespace_storm.threshold _ b3)

  everything_left : unconsumed [] events ≡ events
  everything_left = go events
    where
      go : (es : List FaultEvent) → unconsumed [] es ≡ es
      go [] = refl
      go (e ∷ es) = ap (λ l. e ∷ l) (go es)

  -- In a window whose events have distinct identifiers, whatever the configuration, the iteration
  -- order of the maps and the constructor's failures: the events of the super-events and the events
  -- passed on alone are together the events of the window, each as often as there.
  pub evaluate_partition :
      (rules : RulesConfig) (calls : ℕ) (p : FaultEvent → Bool)
      → let result = (evaluate order uuid clock rules events calls).0 in
        count p (correlated result.super_events ++ result.uncorrelated_events) ≡ count p events
  unfolding evaluate
  evaluate_partition rules calls p =
      let r0 : Round = record { supers = []; consumed = []; calls = calls } in
      let b0 : IsBalanced events r0 = λ q. omega (arith, ap (count q) everything_left) in
      let r = evaluate_rules order uuid clock rules events r0 in
      omega (
        arith,
        evaluate_rules-IsBalanced rules r0 b0 p,
        count-append p (correlated r.supers) (unconsumed r.consumed events),
      )
