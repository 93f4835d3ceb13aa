-- ===== src/Controller/Cascades.antt =====
-- internal/controller/detectors.go with internal/pipeline/correlator: two rules that the events of the bridge
-- never meet.
use mathlib.Core.List.Perm
use wormsign.Common.{
  ℕ, ◌≡◌, refl, ap, ◌∙◌, String, Bool, true, false, not, List, [], ◌∷◌, All, Option, none, some,
  map, keep, str_eq, if◌then◌else◌, Bool-cases, inl, inr, arith,
}
use wormsign.Common.Int.{ℤ}
use wormsign.Common.Keys.{Eq, string_eq, pair_eq}
use wormsign.Common.Maps.{lookup}
use wormsign.Common.Order.{MapOrder}
use wormsign.Model.{FaultEvent}
use wormsign.Controller.Bridge.{DetectorBridge, Submission, Op, run}
use wormsign.Controller.Blind.{IsPlain, ArePlain}
use wormsign.Pipeline.Correlator.Config.{RulesConfig}
use wormsign.Pipeline.Correlator.Defs.{
  get_text, Group, Round, is_consumed, unconsumed, no_members, emit_groups, collect_heads,
  collect_groups, file_head, file_member, group_of, headed, cascade_group, cascade_groups, node_key,
  pvc_key, pvc_pod_key, evaluate_node_cascade, evaluate_storage_cascade,
  evaluate_deployment_rollout, evaluate_namespace_storm, evaluate_rules, evaluate,
}
use wormsign.Controller.Submitted.{run-ArePlain}

-- Such events have no key for the rules.
node_key-none : (e : FaultEvent) → IsPlain e → node_key e ≡ none
unfolding node_key
node_key-none e (kind, named) = ground (arith, kind)

pvc_pod_key-none : (e : FaultEvent) → IsPlain e → pvc_pod_key e ≡ none
unfolding pvc_pod_key
pvc_pod_key-none e (kind, named) =
    let unnamed : get_text "wormsign.io/pvc-name" e.annotations ≡ "" =
      ap (λ o. elim o as (λ x. String) [ none ↦ "" | some v ↦ v ]) named in
    elim (Bool-cases (str_eq e.resource.kind "Pod")) [
      | inl pod ↦ rw pod (rw unnamed refl)
      | inr other ↦ rw other refl
    ]

module _ (order : MapOrder) {K : Type 0} ⦃eq : Eq K⦄ where
  no_heads :
      (key : FaultEvent → Option K) (m : List (K × FaultEvent)) (es : List FaultEvent)
      → All (λ e. key e ≡ none) es
      → collect_heads key m es ≡ m
  unfolding collect_heads file_head
  no_heads key m [] h = refl
  no_heads key m (e ∷ es) (h, hs) = rw (collect_heads, h, file_head) (no_heads key m es hs)

  no_groups :
      (key : FaultEvent → Option K) (m : List (K × List FaultEvent)) (es : List FaultEvent)
      → All (λ e. key e ≡ none) es
      → collect_groups key m es ≡ m
  unfolding collect_groups file_member
  no_groups key m [] h = refl
  no_groups key m (e ∷ es) (h, hs) = rw (collect_groups, h, file_member) (no_groups key m es hs)

if_kept :
    (b : Bool) (e : FaultEvent) (es : List FaultEvent)
    → All IsPlain (e ∷ es)
    → All IsPlain es
    → All IsPlain (if b then e ∷ es else es)
if_kept true e es h hs = h
if_kept false e es h hs = hs

module _ (uuid : ℕ → Option String) (clock : ℕ → ℕ) where
  -- Groups without members are too small for a storm of claims.
  skip_empty :
      (rule : String) (gs : List Group) (r : Round)
      → All (λ g. no_members g.members ≡ true) gs
      → emit_groups uuid clock rule no_members gs r ≡ r
  unfolding emit_groups
  skip_empty rule [] r h = refl
  skip_empty rule (g ∷ gs) r (h, hs) = rw (emit_groups, h) (skip_empty rule gs r hs)

headed-pvc_pod_key :
    (heads : List ((String × String) × FaultEvent)) (e : FaultEvent)
    → IsPlain e
    → headed heads pvc_pod_key e ≡ none
headed-pvc_pod_key heads e h =
    ap
      (λ o. elim o as (λ x. Option (String × String)) [
        | none ↦ none
        | some k ↦ elim (lookup k heads) [ none ↦ none | some g ↦ some k ]
      ])
      (pvc_pod_key-none e h)

memberless :
    {K : Type 0} ⦃eq : Eq K⦄ (hs : List (K × FaultEvent))
    → All (λ g. no_members g.members ≡ true) (map (cascade_group []) hs)
unfolding group_of
memberless [] = tt
memberless (h ∷ hs) = (refl, memberless hs)

-- The configuration with the two rules disabled.
abbrev pub without_cascades : RulesConfig → RulesConfig
without_cascades rules = record rules {
  node_cascade = record rules.node_cascade { enabled = false };
  storage_cascade = record rules.storage_cascade { enabled = false };
}

module _ (order : MapOrder) (uuid : ℕ → Option String) (clock : ℕ → ℕ) (events : List FaultEvent)
    (plain : All IsPlain events) where
  -- What is left of the events is still of this kind.
  unconsumed-IsPlain : (c : List String) → All IsPlain (unconsumed c events)
  unconsumed-IsPlain c = go events plain
    where
      go : (es : List FaultEvent) → All IsPlain es → All IsPlain (unconsumed c es)
      go [] h = tt
      go (e ∷ es) (h, hs) =
          if_kept (not (is_consumed c e.id)) e (unconsumed c es) (h, go es hs) (go es hs)

  keyless :
      {K : Type 0} (key : FaultEvent → Option K) (es : List FaultEvent)
      → ((e : FaultEvent) → IsPlain e → key e ≡ none)
      → All IsPlain es
      → All (λ e. key e ≡ none) es
  keyless key [] none_for h = tt
  keyless key (e ∷ es) none_for (h, hs) = (none_for e h, keyless key es none_for hs)

  node_cascade_idle : (n : ℤ) (r : Round) → evaluate_node_cascade order uuid clock n events r ≡ r
  unfolding evaluate_node_cascade cascade_groups emit_groups
  node_cascade_idle n r =
      rw
        (
          no_heads order node_key [] (unconsumed r.consumed events)
              (keyless node_key _ node_key-none (unconsumed-IsPlain r.consumed)),
          Perm.eq-nil (order.visit-perm (String × FaultEvent) []),
        )
        refl

  storage_cascade_idle : (r : Round) → evaluate_storage_cascade order uuid clock events r ≡ r
  unfolding evaluate_storage_cascade cascade_groups
  storage_cascade_idle r =
      let es = unconsumed r.consumed events in
      let heads = collect_heads pvc_key [] es in
      rw
        (no_groups order (headed heads pvc_pod_key) [] es (
          keyless (headed heads pvc_pod_key) es (headed-pvc_pod_key heads)
            (unconsumed-IsPlain r.consumed)))
        (skip_empty uuid clock "StorageCascade" _ r (memberless (order.visit _ heads)))

  if_idle : (b : Bool) (r r' : Round) → r' ≡ r → (if b then r' else r) ≡ r
  if_idle true r r' h = h
  if_idle false r r' h = refl

  evaluate_rules_idle :
      (rules : RulesConfig) (r : Round)
      → evaluate_rules order uuid clock rules events r
        ≡ evaluate_rules order uuid clock (without_cascades rules) events r
  unfolding evaluate_rules
  evaluate_rules_idle rules r =
      let roll : Round → Round = λ x.
        if rules.deployment_rollout.enabled
        then evaluate_deployment_rollout order uuid clock rules.deployment_rollout.min_pod_failures
            events x
        else x in
      let storm : Round → Round = λ x.
        if rules.namespace_storm.enabled
        then evaluate_namespace_storm order uuid clock rules.namespace_storm.threshold events x
        else x in
      ap storm (
        if_idle rules.storage_cascade.enabled _ _ (storage_cascade_idle _)
        ∙ ap roll (if_idle rules.node_cascade.enabled r _ (node_cascade_idle _ r)))

keep-IsPlain :
    (p : FaultEvent → Bool) (xs : List Submission)
    → ArePlain xs
    → All IsPlain (keep p (map (λ x. x.0) xs))
keep-IsPlain p [] h = tt
keep-IsPlain p (x ∷ xs) (h, hs) =
    if_kept (p x.0) x.0 _ (h, keep-IsPlain p xs hs) (keep-IsPlain p xs hs)

-- For events that the bridge submits, whatever it sees and whichever of them reach a window, `evaluate` gives
-- the same with the rules NodeCascade and StorageCascade as without them: no detector of the bridge reports
-- a node, and nothing names the claim of a pod.
pub run-without_cascades :
    (order : MapOrder) (uuid : ℕ → Option String) (clock : ℕ → ℕ) (rules : RulesConfig)
    (b : DetectorBridge) (os : List Op) (p : FaultEvent → Bool) (calls : ℕ)
    → let events = keep p (map (λ x. x.0) (run b os)) in
      evaluate order uuid clock rules events calls
      ≡ evaluate order uuid clock (without_cascades rules) events calls
unfolding evaluate
run-without_cascades order uuid clock rules b os p calls =
    let events = keep p (map (λ x. x.0) (run b os)) in
    ap
      (λ (r : Round). (
        record { super_events = r.supers; uncorrelated_events = unconsumed r.consumed events },
        r.calls,
      ))
      (evaluate_rules_idle order uuid clock events (keep-IsPlain p (run b os) (run-ArePlain b os))
        rules (record { supers = []; consumed = []; calls = calls }))
