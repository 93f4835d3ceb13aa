-- ===== src/Detector/Base/Defs.antt =====
-- internal/detector/base.go. Times are nanoseconds, and the clock of each read is an argument. The
-- callback's calls are the events in the result of `emit`.
use wormsign.Common.{
  ℕ, ◌+◌, ◌*◌, String, Bool, true, false, not, List, [], Option, none, some, ltb, if◌then◌else◌,
  length, Result, ok, err,
}
use wormsign.Common.Int.{ℤ, pos, pos_part, ltb_ℤ}
use wormsign.Common.Keys.{pair_eq}
use wormsign.Common.Maps.{lookup, insert, delete_where}
use wormsign.Model.{
  StringMap, Severity, ResourceRef, FaultEvent, is_empty, is_valid, new_fault_event,
}

-- The detector's name, and the resource's UID.
abbrev pub DedupKey : Type 0
DedupKey = String × String

pub record BaseDetectorConfig : Type 0 where
  pub name : String
  pub severity : Severity
  pub cooldown : ℤ

pub record BaseDetector : Type 0 where
  pub name : String
  pub severity : Severity
  pub cooldown : ℕ
  pub last_fired : List (DedupKey × ℕ)

pub data ConfigError : Type 0 where
  empty_name bad_severity bad_cooldown no_callback : ConfigError

-- A nil callback is `false`.
unfoldable pub new_base_detector : BaseDetectorConfig → Bool → Result ConfigError BaseDetector
new_base_detector cfg callback =
    if is_empty cfg.name
    then err empty_name
    else if is_valid cfg.severity
    then (if ltb_ℤ cfg.cooldown (pos 1)
        then err bad_cooldown
        else if callback
        then ok (record {
          name = cfg.name;
          severity = cfg.severity;
          cooldown = pos_part cfg.cooldown;
          last_fired = [];
        })
        else err no_callback)
    else err bad_severity

abbrev pub key_of : BaseDetector → ResourceRef → DedupKey
key_of b resource = (b.name, resource.uid)

-- `now.Sub(lastTime) < cooldown`, written as an order between times.
abbrev pub suppressed : BaseDetector → ℕ → Option ℕ → Bool
suppressed b now none = false
suppressed b now (some last) = ltb now (last + b.cooldown)

unfoldable pub should_fire : BaseDetector → ResourceRef → ℕ → Bool
should_fire b resource now = not (suppressed b now (lookup (key_of b resource) b.last_fired))

unfoldable pub record_fire : BaseDetector → ResourceRef → ℕ → BaseDetector
record_fire b resource now = record b { last_fired = insert (key_of b resource) now b.last_fired }

-- What the environment gives to a call of `Emit`: the clock when the cooldown is checked, when the
-- firing is recorded, and when the event is made, and the identifier, if one can be generated.
pub record Reads : Type 0 where
  pub checked_at : ℕ
  pub recorded_at : ℕ
  pub created_at : ℕ
  pub uuid : Option String

-- The result is whether an event was emitted, and the event that the callback was given.
unfoldable pub emit :
    BaseDetector
    → Reads
    → ResourceRef
    → String
    → Option StringMap
    → Option StringMap
    → BaseDetector × Bool × Option FaultEvent
emit b reads resource description labels annotations =
    if should_fire b resource reads.checked_at
    then elim (new_fault_event reads.uuid reads.created_at b.name b.severity resource description
        labels annotations) [
          | err e ↦ (record_fire b resource reads.recorded_at, false, none)
          | ok event ↦ (record_fire b resource reads.recorded_at, true, some event)
        ]
    else (b, false, none)

unfoldable pub cleanup_expired_entries : BaseDetector → ℕ → BaseDetector
cleanup_expired_entries b now = record b {
  last_fired = delete_where (λ last. ltb (last + 2 * b.cooldown) now) b.last_fired;
}

unfoldable pub dedup_entry_count : BaseDetector → ℕ
dedup_entry_count b = length b.last_fired
