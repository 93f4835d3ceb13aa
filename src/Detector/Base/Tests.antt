-- ===== src/Detector/Base/Tests.antt =====
-- A detector with a cooldown of ten seconds.
use wormsign.Common.{◌≡◌, ◌≤◌, refl, true, false, List, [], ◌∷◌, none, some, err, arith}
use wormsign.Common.Keys.{pair_eq}
use wormsign.Common.Maps.{lookup, insert, delete_where}
use wormsign.Model.{ResourceRef, critical, no_uuid, new_fault_event}
use wormsign.Detector.Base.Defs.{
  BaseDetector, Reads, should_fire, record_fire, emit, cleanup_expired_entries,
}
use wormsign.Detector.Base.Cooldown.{Op, emits, cleans, run, step, run_spaced, cleanup-should_fire}
use wormsign.Detector.Base.Failure.{emit_failed_suppresses}

abbrev node : ResourceRef
node = record { kind = "Node"; namespace = ""; name = "n1"; uid = "u1" }

abbrev detector : BaseDetector
detector = record { name = "NodeNotReady"; severity = critical; cooldown = 10; last_fired = [] }

abbrev reads : Reads
reads = record { checked_at = 103; recorded_at = 104; created_at = 104; uuid = some "a" }

abbrev calls : List Op
calls = emits reads node "" none none ∷ cleans 130 ∷ []

fires_again : should_fire (run (record_fire detector node 100) calls) node 131 ≡ true
unfolding should_fire run step record_fire emit cleanup_expired_entries lookup insert delete_where
fires_again = refl

run_spaced_example : 110 ≤ 131
run_spaced_example =
    run_spaced detector node 100 131 calls (λ k. omega arith) (omega arith) (omega arith)
      fires_again

cleanup-should_fire_example :
    should_fire (cleanup_expired_entries detector 130) node 131 ≡ should_fire detector node 131
cleanup-should_fire_example =
    cleanup-should_fire detector node 130 131 (λ k. omega arith) (omega arith)

abbrev no_identifier : Reads
no_identifier = record { checked_at = 103; recorded_at = 104; created_at = 104; uuid = none }

may_fire : should_fire detector node 103 ≡ true
unfolding should_fire lookup
may_fire = refl

cannot_be_made : new_fault_event none 104 "NodeNotReady" critical node "" none none ≡ err no_uuid
unfolding new_fault_event
cannot_be_made = refl

emit_failed_suppresses_example :
    let outcome = emit detector no_identifier node "" none none in
    (outcome.1 ≡ false) × (outcome.2 ≡ none) × (should_fire outcome.0 node 110 ≡ false)
emit_failed_suppresses_example =
    emit_failed_suppresses detector no_identifier node "" none none no_uuid 110 may_fire
      cannot_be_made (omega arith)
