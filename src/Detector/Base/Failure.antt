-- ===== src/Detector/Base/Failure.antt =====
-- internal/detector/base.go: an emission whose event cannot be made.
use wormsign.Common.{ℕ, ◌+◌, ◌<◌, ◌≡◌, String, true, false, Option, none, lt→ltb, err, refl}
use wormsign.Common.Keys.{pair_eq, =?_refl}
use wormsign.Common.Maps.{lookup-insert}
use wormsign.Model.{StringMap, ResourceRef, ModelError, new_fault_event}
use wormsign.Detector.Base.Defs.{BaseDetector, Reads, key_of, should_fire, record_fire, emit}

record_fire-suppresses :
    (b : BaseDetector) (resource : ResourceRef) (at later : ℕ)
    → later < at + b.cooldown
    → should_fire (record_fire b resource at) resource later ≡ false
unfolding should_fire record_fire
record_fire-suppresses b resource at later lt = rw (
  lookup-insert (key_of b resource) (key_of b resource) at b.last_fired,
  =?_refl (key_of b resource),
  lt→ltb later (at + b.cooldown) lt,
)

-- When the cooldown allows an event but the event cannot be made, `Emit` reports that nothing was
-- emitted and calls no callback; yet the firing is recorded, so that until a cooldown after that
-- record every decision for the resource is not to fire.
pub emit_failed_suppresses :
    (b : BaseDetector) (r : Reads) (resource : ResourceRef) (d : String) (l a : Option StringMap)
    (e : ModelError) (later : ℕ)
    → should_fire b resource r.checked_at ≡ true
    → new_fault_event r.uuid r.created_at b.name b.severity resource d l a ≡ err e
    → later < r.recorded_at + b.cooldown
    → ((emit b r resource d l a).1 ≡ false)
      × ((emit b r resource d l a).2 ≡ none)
      × (should_fire (emit b r resource d l a).0 resource later ≡ false)
unfolding emit
emit_failed_suppresses b r resource d l a e later fires fails lt =
    rw (fires, fails) (refl, refl, record_fire-suppresses b resource r.recorded_at later lt)
