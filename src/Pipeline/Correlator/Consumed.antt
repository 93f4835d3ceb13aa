-- ===== src/Pipeline/Correlator/Consumed.antt =====
-- internal/pipeline/correlator/rules.go: what the groups of a rule consume.
use mathlib.Core.Bool.{true≢false}
use mathlib.Core.List.{append_assoc, append-nil}
use wormsign.Common.{
  ℕ, ◌≤◌, ◌≡◌, refl, ap, sym, ◌∙◌, String, Bool, true, false, ◌&&◌, ◌||◌, List, [], ◌∷◌, ◌++◌,
  Option, none, some, all, any, keep, Result, ok, err, Bool-cases, inl, inr, if◌then◌else◌, arith,
  str_eq, length,
}
use wormsign.Common.Counting.{count}
use wormsign.Common.Keys.{Eq, ◌=?◌}
use wormsign.Model.{ResourceRef, FaultEvent, SuperEvent, ModelError, new_super_event}
use wormsign.Pipeline.Correlator.Defs.{
  Group, events_of, Round, ids, is_consumed, unconsumed, emit, emit_groups, append_to, file_member,
  collect_groups, group_of,
}
use wormsign.Pipeline.Correlator.Filed.{is_key, has_key}

-- What is consumed stays consumed.
abbrev pub Grows : List String → List String → Type 0
Grows c c' = (i : String) → is_consumed c i ≡ true → is_consumed c' i ≡ true

any-append : (p : String → Bool) (xs ys : List String) → any p (xs ++ ys) ≡ (any p xs || any p ys)
any-append p [] ys = refl
any-append p (x ∷ xs) ys = ground (arith, any-append p xs ys)

-- Under more consumed identifiers no more events are left.
pub count-unconsumed-le :
    (p : FaultEvent → Bool) (c c' : List String) (es : List FaultEvent)
    → Grows c c'
    → count p (unconsumed c' es) ≤ length (keep p (unconsumed c es))
count-unconsumed-le p c c' [] h = omega arith
count-unconsumed-le p c c' (e ∷ es) h = ground (arith, h e.id, count-unconsumed-le p c c' es h)

-- If those that pass the test are consumed, none of them is left.
pub count_all_consumed :
    (p : FaultEvent → Bool) (c c' : List String) (es : List FaultEvent)
    → Grows c c'
    → all (λ e. is_consumed c' e.id) (keep p (unconsumed c es)) ≡ true
    → count p (unconsumed c' es) ≡ 0
count_all_consumed p c c' [] h hs = refl
count_all_consumed p c c' (e ∷ es) h hs = ground (arith, h e.id, count_all_consumed p c c' es h)

module _ (uuid : ℕ → Option String) (clock : ℕ → ℕ) where
  emit-Grows :
      (rule : String) (primary : ResourceRef) (g : List FaultEvent) (r : Round)
      → Grows r.consumed (emit uuid clock rule primary g r).consumed
  unfolding emit
  emit-Grows rule primary g r =
      go (new_super_event (uuid r.calls) (clock r.calls) rule primary g) refl
    where
      go :
          (v : Result ModelError SuperEvent)
          → new_super_event (uuid r.calls) (clock r.calls) rule primary g ≡ v
          → Grows r.consumed (emit uuid clock rule primary g r).consumed
      go (err x) e i h = rw (emit, e) h
      go (ok s) e i h =
          rw (emit, e) (ground (arith, any-append (λ j. str_eq j i) (ids g) r.consumed, h))

  pub emit_groups-Grows :
      (rule : String) (too_small : List FaultEvent → Bool) (gs : List Group) (r : Round)
      → Grows r.consumed (emit_groups uuid clock rule too_small gs r).consumed
  unfolding emit_groups
  emit_groups-Grows rule too_small [] r i h = h
  emit_groups-Grows rule too_small (g ∷ gs) r i h =
      emit_groups-Grows rule too_small gs _ i
        (unless_small (too_small g.members) r _ i h (emit-Grows rule g.primary (events_of g) r i h))
    where
      unless_small :
          (b : Bool) (r r' : Round) (i : String)
          → is_consumed r.consumed i ≡ true
          → is_consumed r'.consumed i ≡ true
          → is_consumed (if b then r else r').consumed i ≡ true
      unless_small true r r' i h h' = h
      unless_small false r r' i h h' = h'

  -- A group that becomes a super-event is consumed.
  emit-consumes :
      (rule : String) (primary : ResourceRef) (g : List FaultEvent) (r : Round) (s : SuperEvent)
      (i : String)
      → new_super_event (uuid r.calls) (clock r.calls) rule primary g ≡ ok s
      → is_consumed (ids g) i ≡ true
      → is_consumed (emit uuid clock rule primary g r).consumed i ≡ true
  unfolding emit
  emit-consumes rule primary g r s i made h =
      rw (emit, made) (ground (arith, any-append (λ j. str_eq j i) (ids g) r.consumed, h))

  -- An identifier is consumed if it stands in a group that is not too small, and whose super-event can
  -- be made.
  pub emit_groups-consumes :
      (rule : String) (too_small : List FaultEvent → Bool) (gs : List Group) (p : Group → Bool)
      (i : String) (r : Round)
      → ((g : Group) → p g ≡ true → is_consumed (ids (events_of g)) i ≡ true)
      → ((g : Group) → p g ≡ true → too_small g.members ≡ false)
      → ((g : Group) (n : ℕ)
          → p g ≡ true
          → (s : SuperEvent) × (new_super_event (uuid n) (clock n) rule g.primary (events_of g)
              ≡ ok s))
      → any p gs ≡ true
      → is_consumed (emit_groups uuid clock rule too_small gs r).consumed i ≡ true
  unfolding emit_groups
  emit_groups-consumes rule too_small [] p i r within large made found =
      absurd (true≢false (sym found))
  emit_groups-consumes rule too_small (g ∷ gs) p i r within large made found =
      elim (Bool-cases (p g)) [
        | inl this ↦
            let (s, fine) = made g r.calls this in
            rw (emit_groups, large g this)
              (emit_groups-Grows rule too_small gs _ i
                (emit-consumes rule g.primary (events_of g) r s i fine (within g this)))
        | inr other ↦
            emit_groups-consumes rule too_small gs p i _ within large made
              (ground (arith, other, found))
      ]

append_kept :
    (b : Bool) (g : List FaultEvent) (e : FaultEvent) (es : List FaultEvent)
    → (if b then g ++ e ∷ [] else g) ++ es ≡ g ++ (if b then e ∷ es else es)
append_kept true g e es = append_assoc g (e ∷ []) es
append_kept false g e es = refl

module _ {K : Type 0} ⦃eq : Eq K⦄ where
  group_of-append_to :
      (j k : K) (e : FaultEvent) (m : List (K × List FaultEvent))
      → group_of (append_to j e m) k ≡ (if j =? k then group_of m k ++ e ∷ [] else group_of m k)
  unfolding group_of append_to
  group_of-append_to j k e [] = ground arith
  group_of-append_to j k e ((i, g) ∷ m) =
      ground (arith, eq.beq_iff i j, eq.beq_iff i k, eq.beq_iff j k, group_of-append_to j k e m)

  group_of-file :
      (o : Option K) (k : K) (e : FaultEvent) (m : List (K × List FaultEvent))
      → group_of (file_member o e m) k
        ≡ (if is_key k o then group_of m k ++ e ∷ [] else group_of m k)
  unfolding file_member
  group_of-file none k e m = refl
  group_of-file (some j) k e m = group_of-append_to j k e m

  -- The group of a key has the events with that key, in order.
  pub group_of-collect :
      (key : FaultEvent → Option K) (k : K) (m : List (K × List FaultEvent)) (es : List FaultEvent)
      → group_of (collect_groups key m es) k ≡ group_of m k ++ keep (has_key key k) es
  unfolding collect_groups
  group_of-collect key k m [] = sym (append-nil (group_of m k))
  group_of-collect key k m (e ∷ es) =
      group_of-collect key k (file_member (key e) e m) es
      ∙ ap (λ g. g ++ keep (has_key key k) es) (group_of-file (key e) k e m)
      ∙ append_kept (is_key k (key e)) (group_of m k) e (keep (has_key key k) es)

  -- What holds of the group of a key holds of an entry for it.
  pub any-group_of :
      (p : List FaultEvent → Bool) (m : List (K × List FaultEvent)) (k : K)
      → p [] ≡ false
      → p (group_of m k) ≡ true
      → any (λ x. (x.0 =? k) && p x.1) m ≡ true
  unfolding group_of
  any-group_of p [] k empty h = absurd (true≢false (sym h ∙ empty))
  any-group_of p ((j, g) ∷ m) k empty h = elim (Bool-cases (j =? k)) [
    | inl same ↦ ground (arith, same, h)
    | inr other ↦ ground (arith, other, h, any-group_of p m k empty)
  ]
