-- ===== src/Detector/Base/Cooldown.antt =====
-- internal/detector/base.go: the cooldown holds over any sequence of calls.
use wormsign.Common.{
  ℕ, ◌+◌, ◌*◌, ◌≤◌, ◌<◌, ◌≡◌, refl, ap, sym, subst, ◌∙◌, ◌⊎◌, inl, inr, String, true, not, List, [],
  ◌∷◌, Option, none, some, ltb, Bool-cases, arith,
}
use wormsign.Common.Keys.{◌=?◌, pair_eq, =?_refl}
use wormsign.Common.Maps.{
  lookup, lookup-insert, IsMap, unless, lookup-delete_where, insert-IsMap, delete_where-IsMap,
}
use wormsign.Model.{StringMap, ResourceRef}
use wormsign.Detector.Base.Defs.{
  DedupKey, BaseDetector, Reads, key_of, suppressed, should_fire, record_fire, emit,
  cleanup_expired_entries,
}

-- The time recorded under the key is not before `t`, or `t` lies more than two cooldowns back.
abbrev pub Guarded : BaseDetector → DedupKey → (t now : ℕ) → Type 0
Guarded b k t now =
    ((last : ℕ) × (lookup k b.last_fired ≡ some last) × (t ≤ last)) ⊎ (t + 2 * b.cooldown < now)

-- A guarded firing cannot be followed by another within the cooldown.
Guarded-spaced :
    (b : BaseDetector) (resource : ResourceRef) (t now : ℕ)
    → Guarded b (key_of b resource) t now
    → should_fire b resource now ≡ true
    → t + b.cooldown ≤ now
unfolding should_fire
Guarded-spaced b resource t now (inl (last, e, le)) h =
    let h' : not (suppressed b now (some last)) ≡ true = rw e at h in ground arith
Guarded-spaced b resource t now (inr far) h = omega arith

later-Guarded :
    (b : BaseDetector) (k : DedupKey) (t now later : ℕ)
    → now ≤ later
    → Guarded b k t now
    → Guarded b k t later
later-Guarded b k t now later le (inl found) = inl found
later-Guarded b k t now later le (inr far) = inr (omega arith)

record_fire-Guarded :
    (b : BaseDetector) (resource : ResourceRef) (k : DedupKey) (t now at : ℕ)
    → t ≤ at
    → now ≤ at
    → Guarded b k t now
    → Guarded (record_fire b resource at) k t at
unfolding record_fire
record_fire-Guarded b resource k t now at le le' (inr far) = inr (omega arith)
record_fire-Guarded b resource k t now at le le' (inl (last, e, h)) =
    elim (Bool-cases (key_of b resource =? k)) [
      | inl same ↦ inl (at, rw (lookup-insert (key_of b resource) k at b.last_fired, same), le)
      | inr other ↦ inl (last, rw (lookup-insert (key_of b resource) k at b.last_fired, other) e, h)
    ]

cleanup-Guarded :
    (b : BaseDetector) (k : DedupKey) (t now at : ℕ)
    → now ≤ at
    → IsMap b.last_fired
    → Guarded b k t now
    → Guarded (cleanup_expired_entries b at) k t at
unfolding cleanup_expired_entries
cleanup-Guarded b k t now at le m (inr far) = inr (omega arith)
cleanup-Guarded b k t now at le m (inl (last, e, h)) =
    let expired = λ (u : ℕ). ltb (u + 2 * b.cooldown) at in
    let found = lookup-delete_where k expired b.last_fired (m k) in
    elim (Bool-cases (expired last)) [
      | inl old ↦ inr (ground arith)
      | inr recent ↦ inl (last, found ∙ rw (e, recent), h)
    ]

-- Removing expired entries changes no decision at that time or later.
pub cleanup-should_fire :
    (b : BaseDetector) (resource : ResourceRef) (now later : ℕ)
    → IsMap b.last_fired
    → now ≤ later
    → should_fire (cleanup_expired_entries b now) resource later ≡ should_fire b resource later
unfolding should_fire cleanup_expired_entries
cleanup-should_fire b resource now later m le =
    let expired = λ (u : ℕ). ltb (u + 2 * b.cooldown) now in
    rw (lookup-delete_where (key_of b resource) expired b.last_fired (m (key_of b resource)))
      (same_decision (lookup (key_of b resource) b.last_fired))
  where
    same_decision :
        (o : Option ℕ)
        → not (suppressed b later (unless (λ (u : ℕ). ltb (u + 2 * b.cooldown) now) o))
          ≡ not (suppressed b later o)
    same_decision none = refl
    same_decision (some last) = ground arith

-- The calls on a detector: an emission for a resource, or a cleanup.
pub data Op : Type 0 where
  emits : Reads → ResourceRef → String → Option StringMap → Option StringMap → Op
  cleans : ℕ → Op

unfoldable pub step : BaseDetector → Op → BaseDetector
step b (emits reads resource d l a) = (emit b reads resource d l a).0
step b (cleans now) = cleanup_expired_entries b now

unfoldable pub run : BaseDetector → List Op → BaseDetector
run b [] = b
run b (o ∷ os) = run (step b o) os

-- The clock does not go back over the calls, from a time on; the last read is the end.
abbrev pub last_read : ℕ → List Op → ℕ
last_read now [] = now
last_read now (emits reads resource d l a ∷ os) = last_read reads.recorded_at os
last_read now (cleans at ∷ os) = last_read at os

abbrev pub Forward : ℕ → List Op → Type 0
Forward now [] = Unit {0}
Forward now (emits reads resource d l a ∷ os) =
    (now ≤ reads.checked_at) × (reads.checked_at ≤ reads.recorded_at) × Forward reads.recorded_at os
Forward now (cleans at ∷ os) = (now ≤ at) × Forward at os

emit_effect :
    (b : BaseDetector) (r : Reads) (resource : ResourceRef) (d : String) (l a : Option StringMap)
    → ((emit b r resource d l a).0 ≡ b)
      ⊎ ((should_fire b resource r.checked_at ≡ true)
          × ((emit b r resource d l a).0 ≡ record_fire b resource r.recorded_at))
unfolding emit
emit_effect b r resource d l a = ground arith

-- What is kept between the calls, for a firing at `t` and the clock at `now`.
record Holds (name : String) (cooldown : ℕ) (k : DedupKey) (t now : ℕ) (b : BaseDetector)
    : Type 0 where
  same_name : b.name ≡ name
  same_cooldown : b.cooldown ≡ cooldown
  is_map : IsMap b.last_fired
  guarded : Guarded b k t now
  past : t ≤ now

record_fire-Holds :
    (n : String) (c : ℕ) (k : DedupKey) (t now at : ℕ) (b : BaseDetector) (resource : ResourceRef)
    → now ≤ at
    → Holds n c k t now b
    → Holds n c k t at (record_fire b resource at)
unfolding record_fire
record_fire-Holds n c k t now at b resource le h = record {
  same_name = h.same_name;
  same_cooldown = h.same_cooldown;
  is_map = insert-IsMap (key_of b resource) at b.last_fired h.is_map;
  guarded = record_fire-Guarded b resource k t now at (omega (arith, h.past)) le h.guarded;
  past = omega (arith, h.past);
}

later-Holds :
    (n : String) (c : ℕ) (k : DedupKey) (t now at : ℕ) (b : BaseDetector)
    → now ≤ at
    → Holds n c k t now b
    → Holds n c k t at b
later-Holds n c k t now at b le h = record {
  same_name = h.same_name;
  same_cooldown = h.same_cooldown;
  is_map = h.is_map;
  guarded = later-Guarded b k t now at le h.guarded;
  past = omega (arith, h.past);
}

cleanup-Holds :
    (n : String) (c : ℕ) (k : DedupKey) (t now at : ℕ) (b : BaseDetector)
    → now ≤ at
    → Holds n c k t now b
    → Holds n c k t at (cleanup_expired_entries b at)
unfolding cleanup_expired_entries
cleanup-Holds n c k t now at b le h = record {
  same_name = h.same_name;
  same_cooldown = h.same_cooldown;
  is_map = delete_where-IsMap (λ u. ltb (u + 2 * b.cooldown) at) b.last_fired h.is_map;
  guarded = cleanup-Guarded b k t now at le h.is_map h.guarded;
  past = omega (arith, h.past);
}

run-Holds :
    (n : String) (c : ℕ) (k : DedupKey) (t now : ℕ) (b : BaseDetector) (os : List Op)
    → Forward now os
    → Holds n c k t now b
    → Holds n c k t (last_read now os) (run b os)
unfolding run step
run-Holds n c k t now b [] f h = h
run-Holds n c k t now b (cleans at ∷ os) f h =
    run-Holds n c k t at _ os f.1 (cleanup-Holds n c k t now at b f.0 h)
run-Holds n c k t now b (emits r resource d l a ∷ os) f h =
    run-Holds n c k t r.recorded_at (emit b r resource d l a).0 os f.2
      (elim (emit_effect b r resource d l a) [
        | inl e ↦
            subst (Holds n c k t r.recorded_at) (sym e)
              (later-Holds n c k t now r.recorded_at b (omega (arith, f.0, f.1)) h)
        | inr (_, e) ↦
            subst (Holds n c k t r.recorded_at) (sym e)
              (record_fire-Holds n c k t now r.recorded_at b resource (omega (arith, f.0, f.1)) h)
      ])

fired :
    (b : BaseDetector) (resource : ResourceRef) (t : ℕ)
    → IsMap b.last_fired
    → Holds b.name b.cooldown (key_of b resource) t t (record_fire b resource t)
unfolding record_fire
fired b resource t m =
    let k = key_of b resource in
    record {
      same_name = refl;
      same_cooldown = refl;
      is_map = insert-IsMap k t b.last_fired m;
      guarded = inl (t, rw (lookup-insert k k t b.last_fired, =?_refl k), omega arith);
      past = omega arith;
    }

-- A firing recorded at time `t` and any later firing decision for the same resource are at least a
-- cooldown apart, whatever emissions and cleanups lie between, if the clock does not go back.
pub run_spaced :
    (b : BaseDetector) (resource : ResourceRef) (t later : ℕ) (os : List Op)
    → IsMap b.last_fired
    → Forward t os
    → last_read t os ≤ later
    → should_fire (run (record_fire b resource t) os) resource later ≡ true
    → t + b.cooldown ≤ later
run_spaced b resource t later os m f le fires =
    let k = key_of b resource in
    let first : Holds b.name b.cooldown k t t (record_fire b resource t) = fired b resource t m in
    let end = run-Holds b.name b.cooldown k t t (record_fire b resource t) os f first in
    let at_end =
      later-Guarded (run (record_fire b resource t) os) k t (last_read t os) later le end.guarded in
    let same : key_of (run (record_fire b resource t) os) resource ≡ k =
      ap (λ n. (n, resource.uid)) end.same_name in
    let spaced =
      Guarded-spaced (run (record_fire b resource t) os) resource t later
        (subst (λ j. Guarded (run (record_fire b resource t) os) j t later) (sym same) at_end)
        fires in
    omega (arith, spaced, end.same_cooldown)
