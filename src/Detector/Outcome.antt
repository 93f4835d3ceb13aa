-- ===== src/Detector/Outcome.antt =====
-- internal/detector: what the checks of the detectors share.
use wormsign.Common.{ℕ, String, Bool, false, Option, none, Result, ok, err, if◌then◌else◌}
use wormsign.Common.Int.{ℤ, pos, ltb_ℤ}
use wormsign.Model.{Severity, ResourceRef, FaultEvent}
use wormsign.Detector.Base.Defs.{BaseDetector, ConfigError, new_base_detector}

-- A check leaves a detector, tells whether an event was emitted, and which one the callback was given.
abbrev pub Outcome : Type 0 → Type 0
Outcome D = D × Bool × Option FaultEvent

-- A detector that keeps a base and whatever else.
abbrev pub over_base : {D : Type 0} → (BaseDetector → D) → Outcome BaseDetector → Outcome D
over_base make (b, emitted, event) = (make b, emitted, event)

abbrev pub quiet : {D : Type 0} → D → Outcome D
quiet d = (d, false, none)

-- A value of the configuration that is not positive is replaced.
abbrev pub positive_or : ℕ → ℤ → ℤ
positive_or default value = if ltb_ℤ value (pos 1) then pos default else value

-- A detector on a base, unless the base is refused.
unfoldable pub on_base :
    {D : Type 0} → String → Severity → ℤ → Bool → (BaseDetector → D) → Result ConfigError D
on_base name severity cooldown callback make =
    elim (new_base_detector (record { name = name; severity = severity; cooldown = cooldown })
      callback) [ err e ↦ err e | ok b ↦ ok (make b) ]

-- The reference of a resource in a namespace.
abbrev pub ref_to : String → String → String → String → ResourceRef
ref_to kind namespace name uid = record {
  kind = kind;
  namespace = namespace;
  name = name;
  uid = uid;
}
