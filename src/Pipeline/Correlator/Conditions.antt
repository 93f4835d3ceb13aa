-- ===== src/Pipeline/Correlator/Conditions.antt =====
-- internal/pipeline/correlator/rules.go: the groups of a rule meet its conditions.
use mathlib.Core.Bool.{true≢false}
use wormsign.Common.{
  ℕ, ◌≡◌, refl, ap, subst, sym, ◌∙◌, String, Bool, true, false, List, [], ◌∷◌, ◌++◌, map, Option,
  none, some, all, All, Result, ok, err, if◌then◌else◌, arith,
}
use wormsign.Common.Keys.{Eq, =?_eq, string_eq, pair_eq}
use wormsign.Common.Maps.{lookup}
use wormsign.Common.Order.{MapOrder}
use wormsign.Model.{ResourceRef, FaultEvent, SuperEvent, ModelError, new_super_event}
use wormsign.Model.Highest.{new_super_event_fields}
use wormsign.Pipeline.Correlator.Defs.{
  Group, events_of, Round, emit, emit_groups, cascade_groups, plain_groups, collect_heads,
  collect_groups, group_of, cascade_group, plain_group, headed,
}
use wormsign.Pipeline.Correlator.Filed.{
  all-perm, is_key, has_key, collect_heads-filed, collect_groups-filed, group_of-filed,
}

module _ {K : Type 0} where
  -- Every event has this key.
  abbrev pub Share : (FaultEvent → Option K) → K → List FaultEvent → Type 0
  Share key k = All (λ e. key e ≡ some k)

  -- One event with a key, and pod events with the same key.
  abbrev pub IsCascade :
      String
      → (FaultEvent → Option K)
      → (FaultEvent → Option K)
      → (List FaultEvent → Bool)
      → SuperEvent
      → Type 0
  IsCascade rule head_key pod_key too_small s =
      (k : K) × (head : FaultEvent) × (pods : List FaultEvent) × (s.correlation_rule ≡ rule)
      × (s.primary_resource ≡ head.resource)
      × (s.fault_events ≡ head ∷ pods)
      × (head_key head ≡ some k)
      × Share pod_key k pods
      × (too_small pods ≡ false)

  -- Events with the same key, which gives the resource.
  abbrev pub IsGathering :
      String
      → (FaultEvent → Option K)
      → (K → ResourceRef)
      → (List FaultEvent → Bool)
      → SuperEvent
      → Type 0
  IsGathering rule key primary too_small s =
      (k : K) × (s.correlation_rule ≡ rule)
      × (s.primary_resource ≡ primary k)
      × Share key k s.fault_events
      × (too_small s.fault_events ≡ false)

All-append :
    {A : Type 0} (P : A → Type 0) (xs : List A) (x : A) → All P xs → P x → All P (xs ++ x ∷ [])
All-append P [] x h hx = (hx, tt)
All-append P (y ∷ xs) x (h, hs) hx = (h, All-append P xs x hs hx)

All-map :
    {A B : Type 0} (P : B → Type 0) (f : A → B) (p : A → Bool) (xs : List A)
    → ((x : A) → p x ≡ true → P (f x))
    → all p xs ≡ true
    → All P (map f xs)
All-map P f p [] h hs = tt
All-map P f p (x ∷ xs) h hs = (h x (ground (arith, hs)), All-map P f p xs h (ground (arith, hs)))

-- What a super-event takes from a group.
abbrev pub IsMadeOf : String → Group → SuperEvent → Type 0
IsMadeOf rule g s =
    (s.fault_events ≡ events_of g) × (s.correlation_rule ≡ rule) × (s.primary_resource ≡ g.primary)

module _ (uuid : ℕ → Option String) (clock : ℕ → ℕ) (P : SuperEvent → Type 0) where
  emit-All :
      (rule : String) (g : Group) (r : Round)
      → ((s : SuperEvent) → IsMadeOf rule g s → P s)
      → All P r.supers
      → All P (emit uuid clock rule g.primary (events_of g) r).supers
  unfolding emit
  emit-All rule g r made h =
      go (new_super_event (uuid r.calls) (clock r.calls) rule g.primary (events_of g)) refl
    where
      go :
          (v : Result ModelError SuperEvent)
          → new_super_event (uuid r.calls) (clock r.calls) rule g.primary (events_of g) ≡ v
          → All P (emit uuid clock rule g.primary (events_of g) r).supers
      go (err x) e = rw (emit, e) h
      go (ok s) e =
          let (events, name, primary, worst) = new_super_event_fields _ _ rule g.primary _ s e in
          rw (emit, e) (All-append P r.supers s h (made s (events, name, primary)))

  unless_small :
      (b : Bool) (r r' : Round)
      → All P r.supers
      → (b ≡ false → All P r'.supers)
      → All P (if b then r else r').supers
  unless_small true r r' h h' = h
  unless_small false r r' h h' = h' refl

  pub emit_groups-All :
      (rule : String) (too_small : List FaultEvent → Bool) (gs : List Group) (r : Round)
      → All (λ g. too_small g.members ≡ false → (s : SuperEvent) → IsMadeOf rule g s → P s) gs
      → All P r.supers
      → All P (emit_groups uuid clock rule too_small gs r).supers
  unfolding emit_groups
  emit_groups-All rule too_small [] r made h = h
  emit_groups-All rule too_small (g ∷ gs) r (first, made) h =
      emit_groups-All rule too_small gs _ made
        (unless_small (too_small g.members) r _ h (λ large. emit-All rule g r (first large) h))

-- The groups, for a map whose entries are what they should be.
module _ (order : MapOrder) {K : Type 0} ⦃eq : Eq K⦄ where
  visited :
      {V : Type 0} (p : K × V → Bool) (m : List (K × V))
      → all p m ≡ true
      → all p (order.visit (K × V) m) ≡ true
  visited {V} p m h = all-perm p (order.visit-perm (K × V) m) ∙ h

  is_key-some : (k : K) (o : Option K) → is_key k o ≡ true → o ≡ some k
  is_key-some k none h = absurd (true≢false (sym h))
  is_key-some k (some j) h = ap some (=?_eq j k h)

  only_if_found :
      (k : K) (o : Option K) (found : K → Option FaultEvent)
      → is_key k
          (elim o [ none ↦ none | some j ↦ elim (found j) [ none ↦ none | some h ↦ some j ] ])
        ≡ true
      → is_key k o ≡ true
  only_if_found k none found h = h
  only_if_found k (some j) found h = ground (arith, h)

  headed-key :
      (heads : List (K × FaultEvent)) (key : FaultEvent → Option K) (k : K) (e : FaultEvent)
      → has_key (headed heads key) k e ≡ true
      → has_key key k e ≡ true
  headed-key heads key k e h = only_if_found k (key e) (λ j. lookup j heads) h

  has_key-some :
      (key : FaultEvent → Option K) (k : K) (e : FaultEvent)
      → has_key key k e ≡ true
      → key e ≡ some k
  has_key-some key k e h = is_key-some k (key e) h

  Share-all :
      (key : FaultEvent → Option K) (k : K) (es : List FaultEvent)
      → all (has_key key k) es ≡ true
      → Share key k es
  Share-all key k [] h = tt
  Share-all key k (e ∷ es) h =
      (has_key-some key k e (ground (arith, h)), Share-all key k es (ground (arith, h)))

  headed-all :
      (heads : List (K × FaultEvent)) (key : FaultEvent → Option K) (k : K) (es : List FaultEvent)
      → all (has_key (headed heads key) k) es ≡ true
      → all (has_key key k) es ≡ true
  headed-all heads key k [] h = refl
  headed-all heads key k (e ∷ es) h =
      ground (arith, headed-key heads key k e, headed-all heads key k es, h)

  pub cascade_groups-All :
      (rule : String) (head_key pod_key : FaultEvent → Option K)
      (too_small : List FaultEvent → Bool) (es : List FaultEvent)
      → All
          (λ g.
            too_small g.members ≡ false
            → (s : SuperEvent) → IsMadeOf rule g s
            → IsCascade rule head_key pod_key too_small s)
          (cascade_groups order head_key pod_key es)
  unfolding cascade_groups
  cascade_groups-All rule head_key pod_key too_small es =
      let heads = collect_heads head_key [] es in
      let pods = collect_groups (headed heads pod_key) [] es in
      All-map _ (cascade_group pods) (λ x. has_key head_key x.0 x.1)
        (order.visit (K × FaultEvent) heads)
        (λ x h large s (events, name, primary). (
          x.0,
          x.1,
          group_of pods x.0,
          name,
          primary,
          events,
          has_key-some head_key x.0 x.1 h,
          Share-all pod_key x.0 (group_of pods x.0) (
              headed-all heads pod_key x.0 (group_of pods x.0) (
                group_of-filed (headed heads pod_key) pods x.0
                  (collect_groups-filed (headed heads pod_key) [] es refl))),
          large,
        ))
        (visited (λ x. has_key head_key x.0 x.1) heads (collect_heads-filed head_key [] es refl))

  pub plain_groups-All :
      (rule : String) (key : FaultEvent → Option K) (primary : K → ResourceRef)
      (too_small : List FaultEvent → Bool) (es : List FaultEvent)
      → All
          (λ g.
            too_small g.members ≡ false
            → (s : SuperEvent) → IsMadeOf rule g s
            → IsGathering rule key primary too_small s)
          (plain_groups order key primary es)
  unfolding plain_groups
  plain_groups-All rule key primary too_small es =
      let groups = collect_groups key [] es in
      All-map _ (plain_group primary) (λ x. all (has_key key x.0) x.1)
        (order.visit (K × List FaultEvent) groups)
        (λ x h large s (events, name, resource). (
          x.0,
          name,
          resource,
          subst (Share key x.0) (sym events) (Share-all key x.0 x.1 h),
          subst (λ g. too_small g ≡ false) (sym events) large,
        ))
        (visited (λ x. all (has_key key x.0) x.1) groups (collect_groups-filed key [] es refl))
