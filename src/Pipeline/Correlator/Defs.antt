-- ===== src/Pipeline/Correlator/Defs.antt =====
-- internal/pipeline/correlator/rules.go and `evaluate` of correlator.go. Logging has no effect on
-- the results and is left out. The two kinds of rule, a cascade from one event and a group by a key,
-- are written once each, over the tests of the four rules.
use wormsign.Common.{
  ℕ, suc, String, Bool, not, ◌&&◌, List, [], ◌∷◌, ◌++◌, map, Option, none, some, if◌then◌else◌,
  str_eq, length, any, keep, ◌==◌, ok, err,
}
use wormsign.Common.Int.{ℤ, pos, ltb_ℤ}
use wormsign.Common.Keys.{Eq, ◌=?◌, string_eq, pair_eq}
use wormsign.Common.Maps.{lookup, insert}
use wormsign.Common.Order.{MapOrder}
use wormsign.Model.{StringMap, ResourceRef, FaultEvent, SuperEvent, is_empty, new_super_event}
use wormsign.Pipeline.Correlator.Config.{RulesConfig}

-- `m[k]` on a map of texts: the empty text for a missing key.
abbrev pub get_text : String → StringMap → String
get_text k m = elim (lookup k m) [ none ↦ "" | some v ↦ v ]

-- `consumed[id]`
abbrev pub is_consumed : List String → String → Bool
is_consumed consumed id = any (λ j. str_eq j id) consumed

-- A key that is the empty text is no key.
abbrev named {ℓ} : {K : Type ℓ} → String → K → Option K
named s k = if is_empty s then none else some k

-- The tests of the rules: the key under which an event is filed, if the rule looks at it.
unfoldable pub node_key : FaultEvent → Option String
node_key e =
    if str_eq e.detector_name "NodeNotReady" && str_eq e.resource.kind "Node"
    then some e.resource.name
    else none

unfoldable pub node_pod_key : FaultEvent → Option String
node_pod_key e =
    if str_eq e.resource.kind "Pod"
    then (let node = get_text "wormsign.io/node-name" e.annotations in named node node)
    else none

unfoldable pub deployment_key : FaultEvent → Option (String × String)
deployment_key e =
    if str_eq e.resource.kind "Pod"
    then (let name = get_text "wormsign.io/owner-deployment" e.annotations in
        named name (e.resource.namespace, name))
    else none

unfoldable pub pvc_key : FaultEvent → Option (String × String)
pvc_key e =
    if str_eq e.detector_name "PVCStuckBinding" && str_eq e.resource.kind "PersistentVolumeClaim"
    then some (e.resource.namespace, e.resource.name)
    else none

unfoldable pub pvc_pod_key : FaultEvent → Option (String × String)
pvc_pod_key e =
    if str_eq e.resource.kind "Pod"
    then (let name = get_text "wormsign.io/pvc-name" e.annotations in
        named name (e.resource.namespace, name))
    else none

unfoldable pub namespace_key : FaultEvent → Option String
namespace_key e = named e.resource.namespace e.resource.namespace

pub record CorrelationResult : Type 0 where
  pub super_events : List SuperEvent
  pub uncorrelated_events : List FaultEvent

-- What the rules share: the super-events so far, the consumed identifiers, and how many calls of
-- `NewSuperEvent` were made.
pub record Round : Type 0 where
  pub supers : List SuperEvent
  pub consumed : List String
  pub calls : ℕ

-- A group that may become a super-event: the event that a cascade starts from, if the rule is a
-- cascade, and the events filed under its key.
pub record Group : Type 0 where
  pub primary : ResourceRef
  pub head : List FaultEvent
  pub members : List FaultEvent

abbrev pub events_of : Group → List FaultEvent
events_of g = g.head ++ g.members

abbrev pub ids : List FaultEvent → List String
ids = map (λ e. e.id)

-- The events that are not consumed, which each loop of a rule goes through.
abbrev pub unconsumed : List String → List FaultEvent → List FaultEvent
unconsumed consumed = keep (λ e. not (is_consumed consumed e.id))

module _ {K : Type 0} ⦃eq : Eq K⦄ where
  -- `m[k] = e`, if there is a key.
  unfoldable pub file_head : Option K → FaultEvent → List (K × FaultEvent) → List (K × FaultEvent)
  file_head none e m = m
  file_head (some k) e m = insert k e m

  -- `m[key(e)] = e`, for each event that has a key.
  unfoldable pub collect_heads :
      (FaultEvent → Option K) → List (K × FaultEvent) → List FaultEvent → List (K × FaultEvent)
  collect_heads key m [] = m
  collect_heads key m (e ∷ es) = collect_heads key (file_head (key e) e m) es

  -- `m[k] = append(m[k], e)`
  unfoldable pub append_to :
      K → FaultEvent → List (K × List FaultEvent) → List (K × List FaultEvent)
  append_to k e [] = (k, e ∷ []) ∷ []
  append_to k e ((j, g) ∷ m) = if j =? k then (j, g ++ e ∷ []) ∷ m else (j, g) ∷ append_to k e m

  -- `m[k] = append(m[k], e)`, if there is a key.
  unfoldable pub file_member :
      Option K → FaultEvent → List (K × List FaultEvent) → List (K × List FaultEvent)
  file_member none e m = m
  file_member (some k) e m = append_to k e m

  -- `m[key(e)] = append(m[key(e)], e)`, for each event that has a key.
  unfoldable pub collect_groups :
      (FaultEvent → Option K)
      → List (K × List FaultEvent)
      → List FaultEvent
      → List (K × List FaultEvent)
  collect_groups key m [] = m
  collect_groups key m (e ∷ es) = collect_groups key (file_member (key e) e m) es

  -- `m[k]`, a nil slice for a missing key.
  unfoldable pub group_of : List (K × List FaultEvent) → K → List FaultEvent
  group_of [] k = []
  group_of ((j, g) ∷ m) k = if j =? k then g else group_of m k

  abbrev pub cascade_group : List (K × List FaultEvent) → K × FaultEvent → Group
  cascade_group pods (k, h) = record {
    primary = h.resource;
    head = h ∷ [];
    members = group_of pods k;
  }

  abbrev pub plain_group : (K → ResourceRef) → K × List FaultEvent → Group
  plain_group primary (k, g) = record { primary = primary k; head = []; members = g }

  -- The key of a pod event, if there is a head for it.
  abbrev pub headed : List (K × FaultEvent) → (FaultEvent → Option K) → FaultEvent → Option K
  headed heads key e = elim (key e) [
    | none ↦ none
    | some k ↦ elim (lookup k heads) [ none ↦ none | some h ↦ some k ]
  ]

-- `uuid n` and `clock n` are what the n-th call of `NewSuperEvent` gets for its identifier and its
-- time.
module _ (uuid : ℕ → Option String) (clock : ℕ → ℕ) where
  -- A super-event of the events is added, and they are consumed, unless its constructor fails.
  unfoldable pub emit : String → ResourceRef → List FaultEvent → Round → Round
  emit rule primary es r = elim (new_super_event (uuid r.calls) (clock r.calls) rule primary es) [
    | err e ↦ record r { calls = suc r.calls }
    | ok s ↦ record {
      supers = r.supers ++ s ∷ [];
      consumed = ids es ++ r.consumed;
      calls = suc r.calls;
    }
  ]

  -- The last loop of a rule, over the groups in the order of the map: a group with too few members
  -- is skipped.
  unfoldable pub emit_groups : String → (List FaultEvent → Bool) → List Group → Round → Round
  emit_groups rule too_small [] r = r
  emit_groups rule too_small (g ∷ gs) r =
      emit_groups rule too_small gs
        (if too_small g.members then r else emit rule g.primary (events_of g) r)

-- `order` is the iteration order of maps.
module _ (order : MapOrder) {K : Type 0} ⦃eq : Eq K⦄ where
  -- The groups of a cascade: each head, with the pod events filed under its key.
  unfoldable pub cascade_groups :
      (FaultEvent → Option K) → (FaultEvent → Option K) → List FaultEvent → List Group
  unfolding collect_heads file_head collect_groups file_member append_to group_of
  cascade_groups head_key pod_key es =
      let heads = collect_heads head_key [] es in
      let pods = collect_groups (headed heads pod_key) [] es in
      map (cascade_group pods) (order.visit (K × FaultEvent) heads)

  -- The groups of a rule without heads.
  unfoldable pub plain_groups :
      (FaultEvent → Option K) → (K → ResourceRef) → List FaultEvent → List Group
  unfolding collect_groups file_member append_to
  plain_groups key primary es =
      map (plain_group primary) (order.visit (K × List FaultEvent) (collect_groups key [] es))

-- `len(members) < n`, `len(members) == 0` and `len(members) <= n`.
abbrev pub fewer_than : ℤ → List FaultEvent → Bool
fewer_than n members = ltb_ℤ (pos (length members)) n

abbrev pub no_members : List FaultEvent → Bool
no_members members = length members == 0

abbrev pub at_most : ℤ → List FaultEvent → Bool
at_most n members = not (ltb_ℤ n (pos (length members)))

abbrev pub deployment_ref : String × String → ResourceRef
deployment_ref (namespace, name) = record {
  kind = "Deployment";
  namespace = namespace;
  name = name;
  uid = "";
}

abbrev pub namespace_ref : String → ResourceRef
namespace_ref name = record { kind = "Namespace"; namespace = ""; name = name; uid = "" }

-- The four rules. Each looks at the events that the rules before it did not consume.
module _ (order : MapOrder) (uuid : ℕ → Option String) (clock : ℕ → ℕ) where
  unfoldable pub evaluate_node_cascade : ℤ → List FaultEvent → Round → Round
  evaluate_node_cascade min_pods events r =
      emit_groups uuid clock "NodeCascade" (fewer_than min_pods)
        (cascade_groups order node_key node_pod_key (unconsumed r.consumed events)) r

  unfoldable pub evaluate_deployment_rollout : ℤ → List FaultEvent → Round → Round
  evaluate_deployment_rollout min_pods events r =
      emit_groups uuid clock "DeploymentRollout" (fewer_than min_pods)
        (plain_groups order deployment_key deployment_ref (unconsumed r.consumed events)) r

  unfoldable pub evaluate_storage_cascade : List FaultEvent → Round → Round
  evaluate_storage_cascade events r =
      emit_groups uuid clock "StorageCascade" no_members
        (cascade_groups order pvc_key pvc_pod_key (unconsumed r.consumed events)) r

  unfoldable pub evaluate_namespace_storm : ℤ → List FaultEvent → Round → Round
  evaluate_namespace_storm threshold events r =
      emit_groups uuid clock "NamespaceStorm" (at_most threshold)
        (plain_groups order namespace_key namespace_ref (unconsumed r.consumed events)) r

  -- The result of `evaluate`, with the number of calls of `NewSuperEvent` so far.
  unfoldable pub evaluate_rules : RulesConfig → List FaultEvent → Round → Round
  evaluate_rules rules events r0 =
      let r1 =
        if rules.node_cascade.enabled
        then evaluate_node_cascade rules.node_cascade.min_pod_failures events r0
        else r0 in
      let r2 =
        if rules.deployment_rollout.enabled
        then evaluate_deployment_rollout rules.deployment_rollout.min_pod_failures events r1
        else r1 in
      let r3 = if rules.storage_cascade.enabled then evaluate_storage_cascade events r2 else r2 in
      if rules.namespace_storm.enabled
      then evaluate_namespace_storm rules.namespace_storm.threshold events r3
      else r3

  unfoldable pub evaluate : RulesConfig → List FaultEvent → ℕ → CorrelationResult × ℕ
  evaluate rules events calls =
      let r = evaluate_rules rules events (record { supers = []; consumed = []; calls = calls }) in
      (
        record { super_events = r.supers; uncorrelated_events = unconsumed r.consumed events },
        r.calls,
      )
