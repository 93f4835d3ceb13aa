-- ===== src/Pipeline/Correlator/Emission.antt =====
-- internal/pipeline/correlator/rules.go: what the last loop of a rule does to the events.
use mathlib.Core.List.{append_assoc}
use wormsign.Common.{
  ℕ, suc, ◌+◌, ◌≡◌, refl, ap, subst, sym, ◌∙◌, String, Bool, true, false, not, ◌||◌, List, [], ◌∷◌,
  ◌++◌, Option, any, keep, concat_map, if◌then◌else◌, Result, ok, err, str_eq, arith,
}
use wormsign.Common.Counting.{count, Sub, count-append, count-keep-le}
use wormsign.Common.Removal.{has_id, IsDistinct, within, count_removed}
use wormsign.Model.{ResourceRef, FaultEvent, SuperEvent, ModelError, new_super_event}
use wormsign.Model.Highest.{new_super_event_fields}
use wormsign.Pipeline.Correlator.Defs.{
  Group, events_of, Round, ids, is_consumed, unconsumed, emit, emit_groups,
}

-- The events of all the super-events.
abbrev pub correlated : List SuperEvent → List FaultEvent
correlated = concat_map (λ s. s.fault_events)

abbrev pub gathered : List Group → List FaultEvent
gathered = concat_map events_of

abbrev pub event_id : FaultEvent → String
event_id e = e.id

correlated-append :
    (xs : List SuperEvent) (s : SuperEvent)
    → correlated (xs ++ s ∷ []) ≡ correlated xs ++ (s.fault_events ++ [])
correlated-append [] s = refl
correlated-append (x ∷ xs) s =
    rw (correlated-append xs s) (sym (append_assoc x.fault_events (correlated xs) _))

any-append : (p : String → Bool) (xs ys : List String) → any p (xs ++ ys) ≡ (any p xs || any p ys)
any-append p [] ys = refl
any-append p (x ∷ xs) ys = ground (arith, any-append p xs ys)

-- To consume a group is to take its events out of those that are left.
unconsumed-append :
    (g : List FaultEvent) (c : List String) (es : List FaultEvent)
    → unconsumed (ids g ++ c) es ≡ keep (λ e. not (within event_id g e)) (unconsumed c es)
unconsumed-append g c [] = refl
unconsumed-append g c (e ∷ es) =
    ground (arith, any-append (λ j. str_eq j e.id) (ids g) c, unconsumed-append g c es)

count_added :
    (p : FaultEvent → Bool) (xs : List SuperEvent) (s : SuperEvent) (g : List FaultEvent)
    → s.fault_events ≡ g
    → count p (correlated (xs ++ s ∷ [])) ≡ count p (correlated xs) + count p g
count_added p xs s g e = omega (
  arith,
  ap (count p) (correlated-append xs s),
  count-append p (correlated xs) (s.fault_events ++ []),
  count-append p s.fault_events [],
  ap (count p) e,
)

module _ (events : List FaultEvent) where
  abbrev pub left : Round → List FaultEvent
  left r = unconsumed r.consumed events

  -- The events of the super-events and those that are not consumed make up the window.
  abbrev pub IsBalanced : Round → Type 0
  IsBalanced r =
      (p : FaultEvent → Bool) → count p events ≡ count p (correlated r.supers) + count p (left r)

  left-IsDistinct : (r : Round) → IsDistinct event_id events → IsDistinct event_id (left r)
  left-IsDistinct r d i = omega (
    arith,
    d i,
    count-keep-le (has_id event_id i) (λ e. not (is_consumed r.consumed e.id)) events,
  )

  module _ (uuid : ℕ → Option String) (clock : ℕ → ℕ) where
    abbrev After : String → ResourceRef → List FaultEvent → List FaultEvent → Round → Type 0
    After rule primary g rest r =
        let r' = emit uuid clock rule primary g r in IsBalanced r' × Sub rest (left r')

    emit-err :
        (rule : String) (primary : ResourceRef) (g : List FaultEvent) (r : Round) (e : ModelError)
        → new_super_event (uuid r.calls) (clock r.calls) rule primary g ≡ err e
        → emit uuid clock rule primary g r ≡ record r { calls = suc r.calls }
    unfolding emit
    emit-err rule primary g r e h = rw (h, emit)

    emit-ok :
        (rule : String) (primary : ResourceRef) (g : List FaultEvent) (r : Round) (x : SuperEvent)
        → new_super_event (uuid r.calls) (clock r.calls) rule primary g ≡ ok x
        → emit uuid clock rule primary g r ≡ record {
          supers = r.supers ++ x ∷ [];
          consumed = ids g ++ r.consumed;
          calls = suc r.calls;
        }
    unfolding emit
    emit-ok rule primary g r x h = rw (h, emit)

    emit-After :
        (rule : String) (primary : ResourceRef) (g rest : List FaultEvent) (r : Round)
        → IsDistinct event_id events
        → IsBalanced r
        → Sub (g ++ rest) (left r)
        → After rule primary g rest r
    emit-After rule primary g rest r d b s =
        go (new_super_event (uuid r.calls) (clock r.calls) rule primary g) refl
      where
        part : Sub g (left r)
        part p = omega (arith, s p, count-append p g rest)

        removed :
            (p : FaultEvent → Bool)
            → count p (left r) ≡ count p g + count p (unconsumed (ids g ++ r.consumed) events)
        removed p =
            count_removed event_id p g (left r) (left-IsDistinct r d) part
            ∙ ap (λ l. count p g + count p l) (sym (unconsumed-append g r.consumed events))

        go :
            (v : Result ModelError SuperEvent)
            → new_super_event (uuid r.calls) (clock r.calls) rule primary g ≡ v
            → After rule primary g rest r
        go (err x) e =
            subst (λ r'. IsBalanced r' × Sub rest (left r')) (sym (emit-err rule primary g r x e))
              (b, λ p. omega (arith, s p, count-append p g rest))
        go (ok x) e =
            let same = (new_super_event_fields _ _ rule primary g x e).0 in
            subst (λ r'. IsBalanced r' × Sub rest (left r')) (sym (emit-ok rule primary g r x e))
              (
                λ p. omega (arith, b p, removed p, count_added p r.supers x g same),
                λ p. omega (arith, s p, removed p, count-append p g rest),
              )

    choose :
        (b : Bool) (rule : String) (too_small : List FaultEvent → Bool) (gs : List Group)
        (r r' : Round)
        → IsBalanced (emit_groups uuid clock rule too_small gs r)
        → IsBalanced (emit_groups uuid clock rule too_small gs r')
        → IsBalanced (emit_groups uuid clock rule too_small gs (if b then r else r'))
    choose true rule too_small gs r r' x y = x
    choose false rule too_small gs r r' x y = y

    -- The loop over the groups keeps the balance, if all of them are parts of what is left.
    pub emit_groups-IsBalanced :
        (rule : String) (too_small : List FaultEvent → Bool) (gs : List Group) (r : Round)
        → IsDistinct event_id events
        → IsBalanced r
        → Sub (gathered gs) (left r)
        → IsBalanced (emit_groups uuid clock rule too_small gs r)
    unfolding emit_groups
    emit_groups-IsBalanced rule too_small [] r d b s = b
    emit_groups-IsBalanced rule too_small (g ∷ gs) r d b s =
        let skipped =
          emit_groups-IsBalanced rule too_small gs r d b
            (λ p. omega (arith, s p, count-append p (events_of g) (gathered gs))) in
        let (b', s') = emit-After rule g.primary (events_of g) (gathered gs) r d b s in
        let emitted =
          emit_groups-IsBalanced rule too_small gs (emit uuid clock rule g.primary (events_of g) r)
            d b' s' in
        choose (too_small g.members) rule too_small gs r _ skipped emitted
