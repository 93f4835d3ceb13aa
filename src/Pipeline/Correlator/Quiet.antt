-- ===== src/Pipeline/Correlator/Quiet.antt =====
-- internal/pipeline/correlator: what a rule leaves uncorrelated is too little for it.
use mathlib.Core.Bool.{true≢false}
use wormsign.Common.{
  ℕ, ◌≤◌, ◌≡◌, refl, ap, sym, ◌∙◌, String, Bool, true, false, not, ◌&&◌, List, [], ◌∷◌, ◌++◌, map,
  Option, some, all, any, keep, ltb, ok, Bool-cases, inl, inr, if◌then◌else◌, eq_iff, arith, str_eq,
  length,
}
use wormsign.Common.Int.{pos}
use wormsign.Common.Counting.{count}
use wormsign.Common.Keys.{Eq, ◌=?◌, =?_eq, string_eq, pair_eq}
use wormsign.Common.Order.{MapOrder}
use wormsign.Model.{
  ResourceRef, FaultEvent, SuperEvent, is_empty, is_nil, highest_severity, new_super_event,
}
use wormsign.Pipeline.Correlator.Config.{RulesConfig}
use wormsign.Pipeline.Correlator.Defs.{
  Group, events_of, Round, ids, is_consumed, unconsumed, emit_groups, collect_groups, group_of,
  plain_group, plain_groups, at_most, namespace_key, namespace_ref, evaluate_namespace_storm,
  evaluate_rules, evaluate,
}
use wormsign.Pipeline.Correlator.Filed.{any-perm, has_key}
use wormsign.Pipeline.Correlator.Consumed.{
  count-unconsumed-le, count_all_consumed, emit_groups-Grows, emit_groups-consumes,
  group_of-collect, any-group_of,
}

any-map :
    {A B : Type 0} (f : A → B) (q : A → Bool) (p : B → Bool) (xs : List A)
    → ((x : A) → q x ≡ true → p (f x) ≡ true)
    → any q xs ≡ true
    → any p (map f xs) ≡ true
any-map f q p [] h hs = hs
any-map f q p (x ∷ xs) h hs = ground (arith, h x, hs, any-map f q p xs h)

each_identified :
    (g : List FaultEvent) (q : String → Bool)
    → ((i : String) → is_consumed (ids g) i ≡ true → q i ≡ true)
    → all (λ e. q e.id) g ≡ true
each_identified [] q h = refl
each_identified (e ∷ g) q h = ground (
  arith,
  h e.id (ground (arith, eq_iff e.id e.id)),
  each_identified g q (λ i hi. h i (ground (arith, hi))),
)

-- A super-event is made of events under a named rule and resource, if an identifier can be drawn.
new_super_event_made :
    (id : String) (now : ℕ) (rule : String) (primary : ResourceRef) (events : List FaultEvent)
    → is_empty rule ≡ false
    → is_empty primary.kind ≡ false
    → is_empty primary.name ≡ false
    → is_nil events ≡ false
    → (s : SuperEvent) × (new_super_event (some id) now rule primary events ≡ ok s)
unfolding new_super_event
new_super_event_made id now rule primary events hr hk hn he = (
  record {
    id = id;
    correlation_rule = rule;
    primary_resource = primary;
    fault_events = events;
    timestamp = now;
    severity = highest_severity events;
  },
  rw (hr, hk, hn, he),
)

-- The group has more members than this, and a resource to name.
abbrev fits : ℕ → Group → Bool
fits t g =
    ltb t (length g.members) && (not (is_empty g.primary.kind) && not (is_empty g.primary.name))

some_members :
    (t : ℕ) (head members : List FaultEvent)
    → ltb t (length members) ≡ true
    → is_nil (head ++ members) ≡ false
some_members t [] [] h = ground (arith, h)
some_members t [] (e ∷ es) h = refl
some_members t (e ∷ es) members h = refl

fits-made :
    (id : String) (now : ℕ) (rule : String) (t : ℕ) (g : Group)
    → is_empty rule ≡ false
    → fits t g ≡ true
    → (s : SuperEvent) × (new_super_event (some id) now rule g.primary (events_of g) ≡ ok s)
fits-made id now rule t g hr h =
    new_super_event_made id now rule g.primary (events_of g) hr (ground (arith, h))
      (ground (arith, h)) (some_members t g.head g.members (ground (arith, h)))

entry-fits :
    {K : Type 0} ⦃eq : Eq K⦄ (primary : K → ResourceRef) (k j : K)
    → is_empty (primary k).kind ≡ false
    → is_empty (primary k).name ≡ false
    → (many within : Bool) → ((j =? k) && (within && many)) ≡ true
    → (within && (many && (not (is_empty (primary j).kind) && not (is_empty (primary j).name))))
      ≡ true
entry-fits ⦃eq⦄ primary k j hk hn many within h =
    let same : j ≡ k = =?_eq j k (ground (arith, h)) in
    rw
      (ap (λ i. is_empty (primary i).kind) same ∙ hk, ap (λ i. is_empty (primary i).name) same ∙ hn)
      (ground (arith, h))

module _ (order : MapOrder) (id_of : ℕ → String) (clock : ℕ → ℕ) {K : Type 0} ⦃eq : Eq K⦄ where
  -- After a rule without heads no key has more events left than the rule lets pass.
  plain_groups_quiet :
      (rule : String) (key : FaultEvent → Option K) (primary : K → ResourceRef)
      (too_small : List FaultEvent → Bool) (t : ℕ) (k : K) (events : List FaultEvent) (r : Round)
      → is_empty rule ≡ false
      → is_empty (primary k).kind ≡ false
      → is_empty (primary k).name ≡ false
      → ((g : List FaultEvent) → ltb t (length g) ≡ true → too_small g ≡ false)
      → count (has_key key k) (
          unconsumed
            (emit_groups
              (λ n. some (id_of n))
              clock
              rule
              too_small
              (plain_groups order key primary (unconsumed r.consumed events))
              r).consumed
            events)
        ≤ t
  unfolding plain_groups group_of
  plain_groups_quiet rule key primary too_small t k events r hr hk hn large =
      let es = unconsumed r.consumed events in
      let groups = collect_groups key [] es in
      let gs = plain_groups order key primary es in
      let grows = emit_groups-Grows (λ n. some (id_of n)) clock rule too_small gs r in
      let c' = (emit_groups (λ n. some (id_of n)) clock rule too_small gs r).consumed in
      let g = keep (has_key key k) es in
      elim (Bool-cases (ltb t (length g))) [
        | inr few ↦
            ground (arith, few, count-unconsumed-le (has_key key k) r.consumed c' events grows)
        | inl many ↦
            let gone : all (λ e. is_consumed c' e.id) g ≡ true =
              each_identified g (is_consumed c') (λ i hi.
                emit_groups-consumes (λ n. some (id_of n)) clock rule too_small gs
                  (λ g. is_consumed (ids (events_of g)) i && fits t g) i r
                  (λ g h. ground (arith, h)) (λ g h. large g.members (ground (arith, h)))
                  (λ g n h. fits-made (id_of n) (clock n) rule t g hr (ground (arith, h)))
                  (any-map (plain_group primary)
                    (λ x. (x.0 =? k) && (is_consumed (ids x.1) i && ltb t (length x.1))) _
                    (order.visit (K × List FaultEvent) groups)
                    (λ x h.
                      entry-fits primary k x.0 hk hn (ltb t (length x.1)) (is_consumed (ids x.1) i)
                        h)
                    (any-perm _ (order.visit-perm (K × List FaultEvent) groups)
                      ∙ any-group_of (λ g. is_consumed (ids g) i && ltb t (length g)) groups k refl
                          (ap (λ g. is_consumed (ids g) i && ltb t (length g))
                              (group_of-collect key k [] es)
                            ∙ ground (arith, hi, many))))) in
            omega (arith, count_all_consumed (has_key key k) r.consumed c' events grows gone)
      ]

module _ (order : MapOrder) (id_of : ℕ → String) (clock : ℕ → ℕ) (rules : RulesConfig)
    (events : List FaultEvent) (calls : ℕ) where
  in_namespace :
      (namespace : String) (es : List FaultEvent)
      → is_empty namespace ≡ false
      → count (λ e. str_eq e.resource.namespace namespace) es
        ≡ count (has_key namespace_key namespace) es
  unfolding namespace_key
  in_namespace namespace [] named = refl
  in_namespace namespace (e ∷ es) named = ground (
    arith,
    in_namespace namespace es,
    eq_iff e.resource.namespace namespace,
    eq_iff e.resource.namespace "",
    eq_iff namespace "",
  )

  -- The last rule, which is enabled.
  when_on :
      (P : Round → Type 0) (b : Bool) (r r' : Round) → b ≡ true → P r → P (if b then r else r')
  when_on P true r r' on h = h
  when_on P false r r' on h = absurd (true≢false (sym on))

  -- If the rule NamespaceStorm is enabled and every identifier can be drawn, then in each named namespace
  -- the events that `evaluate` leaves uncorrelated are no more than its threshold.
  pub evaluate_quiet :
      (t : ℕ) (namespace : String)
      → rules.namespace_storm.enabled ≡ true
      → rules.namespace_storm.threshold ≡ pos t
      → is_empty namespace ≡ false
      → count
          (λ e. str_eq e.resource.namespace namespace)
          (evaluate order (λ n. some (id_of n)) clock rules events calls).0.uncorrelated_events
        ≤ t
  unfolding evaluate evaluate_rules evaluate_namespace_storm
  evaluate_quiet t namespace on limit named =
      rw (in_namespace namespace (unconsumed _ events) named) (
        when_on (λ r. count (has_key namespace_key namespace) (unconsumed r.consumed events) ≤ t)
          rules.namespace_storm.enabled _ _ on
          (plain_groups_quiet order id_of clock "NamespaceStorm" namespace_key namespace_ref
            (at_most rules.namespace_storm.threshold) t namespace events _ refl refl named
            (λ g many. rw limit (ground (arith, many)))))
