-- ===== src/Pipeline/Correlator/Explained.antt =====
-- internal/pipeline/correlator/rules.go: each super-event meets the conditions of its rule.
use wormsign.Common.{
  ℕ, ◌≡◌, refl, ◌⊎◌, inl, inr, String, Bool, true, false, List, [], ◌∷◌, Option, All, if◌then◌else◌,
}
use wormsign.Common.Keys.{string_eq, pair_eq}
use wormsign.Common.Order.{MapOrder}
use wormsign.Model.{FaultEvent, SuperEvent}
use wormsign.Pipeline.Correlator.Config.{RulesConfig}
use wormsign.Pipeline.Correlator.Defs.{
  Group, Round, emit_groups, unconsumed, fewer_than, no_members, at_most, deployment_ref,
  namespace_ref, evaluate_node_cascade, evaluate_deployment_rollout, evaluate_storage_cascade,
  evaluate_namespace_storm, evaluate_rules, evaluate, node_key, node_pod_key, pvc_key, pvc_pod_key,
  deployment_key, namespace_key,
}
use wormsign.Pipeline.Correlator.Conditions.{
  IsCascade, IsGathering, IsMadeOf, emit_groups-All, cascade_groups-All, plain_groups-All,
}

-- The super-event is one that an enabled rule makes.
abbrev pub IsExplained : RulesConfig → SuperEvent → Type 0
IsExplained rules s =
    ((rules.node_cascade.enabled ≡ true)
      × IsCascade "NodeCascade" node_key node_pod_key
          (fewer_than rules.node_cascade.min_pod_failures) s)
    ⊎ (((rules.deployment_rollout.enabled ≡ true)
          × IsGathering "DeploymentRollout" deployment_key deployment_ref
              (fewer_than rules.deployment_rollout.min_pod_failures) s)
        ⊎ (((rules.storage_cascade.enabled ≡ true)
              × IsCascade "StorageCascade" pvc_key pvc_pod_key no_members s)
            ⊎ ((rules.namespace_storm.enabled ≡ true)
                × IsGathering "NamespaceStorm" namespace_key namespace_ref
                    (at_most rules.namespace_storm.threshold) s)))

module _ (order : MapOrder) (uuid : ℕ → Option String) (clock : ℕ → ℕ) (rules : RulesConfig)
    (events : List FaultEvent) where
  abbrev AreExplained : Round → Type 0
  AreExplained r = All (IsExplained rules) r.supers

  -- A rule that runs if it is enabled.
  when_enabled :
      (b : Bool) (r r' : Round)
      → AreExplained r
      → (b ≡ true → AreExplained r')
      → AreExplained (if b then r' else r)
  when_enabled true r r' h h' = h' refl
  when_enabled false r r' h h' = h

  -- The groups of a rule make explained super-events, if they are explained as the rule's.
  explained_as :
      (rule : String) (too_small : List FaultEvent → Bool) (P : SuperEvent → Type 0)
      (gs : List Group) (r : Round)
      → ((s : SuperEvent) → P s → IsExplained rules s)
      → All (λ g. too_small g.members ≡ false → (s : SuperEvent) → IsMadeOf rule g s → P s) gs
      → AreExplained r
      → AreExplained (emit_groups uuid clock rule too_small gs r)
  explained_as rule too_small P gs r promote made h =
      emit_groups-All uuid clock (IsExplained rules) rule too_small gs r (go gs made) h
    where
      go :
          (gs : List Group)
          → All (λ g. too_small g.members ≡ false → (s : SuperEvent) → IsMadeOf rule g s → P s) gs
          → All
              (λ g.
                too_small g.members ≡ false
                → (s : SuperEvent) → IsMadeOf rule g s
                → IsExplained rules s)
              gs
      go [] m = tt
      go (g ∷ gs) (first, m) = (λ large s made. promote s (first large s made), go gs m)

  evaluate_rules-AreExplained :
      (r : Round) → AreExplained r → AreExplained (evaluate_rules order uuid clock rules events r)
  unfolding evaluate_rules evaluate_node_cascade evaluate_deployment_rollout
      evaluate_storage_cascade evaluate_namespace_storm
  evaluate_rules-AreExplained r0 h0 =
      let h1 = when_enabled rules.node_cascade.enabled r0 _ h0 (λ on.
        explained_as "NodeCascade" (fewer_than rules.node_cascade.min_pod_failures) _ _ r0
          (λ s p. inl (on, p))
          (cascade_groups-All order "NodeCascade" node_key node_pod_key _
            (unconsumed r0.consumed events))
          h0) in
      let h2 = when_enabled rules.deployment_rollout.enabled _ _ h1 (λ on.
        explained_as "DeploymentRollout" (fewer_than rules.deployment_rollout.min_pod_failures) _ _
          _ (λ s p. inr (inl (on, p)))
          (plain_groups-All order "DeploymentRollout" deployment_key deployment_ref _ _) h1) in
      let h3 = when_enabled rules.storage_cascade.enabled _ _ h2 (λ on.
        explained_as "StorageCascade" no_members _ _ _ (λ s p. inr (inr (inl (on, p))))
          (cascade_groups-All order "StorageCascade" pvc_key pvc_pod_key _ _) h2) in
      when_enabled rules.namespace_storm.enabled _ _ h3 (λ on.
        explained_as "NamespaceStorm" (at_most rules.namespace_storm.threshold) _ _ _
          (λ s p. inr (inr (inr (on, p))))
          (plain_groups-All order "NamespaceStorm" namespace_key namespace_ref _ _) h3)

  -- Whatever the iteration order of the maps, each super-event of a window is made by an enabled rule
  -- and meets its conditions. For NodeCascade, it holds a NodeNotReady event of a node, which is its
  -- primary resource, and at least `min_pod_failures` events of pods whose annotation names that node;
  -- for StorageCascade, likewise, a PVCStuckBinding event of a claim and one event or more of pods that
  -- name it. For DeploymentRollout it holds at least `min_pod_failures` events of pods of one deployment,
  -- for NamespaceStorm more than `threshold` events of one namespace, and the deployment or the namespace is
  -- its primary resource.
  pub evaluate-IsExplained :
      (calls : ℕ)
      → All (IsExplained rules) (evaluate order uuid clock rules events calls).0.super_events
  unfolding evaluate
  evaluate-IsExplained calls =
      evaluate_rules-AreExplained (record { supers = []; consumed = []; calls = calls }) tt
