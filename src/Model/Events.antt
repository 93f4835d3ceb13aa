-- ===== src/Model/Events.antt =====
-- internal/model/types.go: fault events, super-events and their constructors.
use wormsign.Common.{
  ℕ, String, Bool, true, false, List, [], ◌∷◌, Option, none, some, ltb, if◌then◌else◌, Result, ok,
  err,
}
use wormsign.Common.{str_eq}
use wormsign.Model.Ranks.{Severity, info, is_valid, severity_rank}

-- A `map[string]string`.
abbrev pub StringMap : Type 0
StringMap = List (String × String)

pub record ResourceRef : Type 0 where
  pub kind : String
  pub namespace : String
  pub name : String
  pub uid : String

pub record FaultEvent : Type 0 where
  pub id : String
  pub detector_name : String
  pub severity : Severity
  pub timestamp : ℕ
  pub resource : ResourceRef
  pub description : String
  pub labels : StringMap
  pub annotations : StringMap

pub record SuperEvent : Type 0 where
  pub id : String
  pub correlation_rule : String
  pub primary_resource : ResourceRef
  pub fault_events : List FaultEvent
  pub timestamp : ℕ
  pub severity : Severity

-- The errors of the two constructors.
pub data ModelError : Type 0 where
  empty_detector bad_severity empty_kind empty_name empty_rule no_events no_uuid : ModelError

abbrev pub is_empty : String → Bool
is_empty s = str_eq s ""

-- A nil map becomes an empty one.
abbrev pub or_empty : Option StringMap → StringMap
or_empty none = []
or_empty (some m) = m

unfoldable pub new_fault_event :
    Option String
    → ℕ
    → String
    → Severity
    → ResourceRef
    → String
    → Option StringMap
    → Option StringMap
    → Result ModelError FaultEvent
new_fault_event uuid now detector severity resource description labels annotations =
    if is_empty detector
    then err empty_detector
    else if is_valid severity
    then (if is_empty resource.kind
        then err empty_kind
        else if is_empty resource.name
        then err empty_name
        else elim uuid [
          | none ↦ err no_uuid
          | some id ↦ ok (record {
            id = id;
            detector_name = detector;
            severity = severity;
            timestamp = now;
            resource = resource;
            description = description;
            labels = or_empty labels;
            annotations = or_empty annotations;
          })
        ])
    else err bad_severity

-- One round of the loop of `highestSeverity`.
unfoldable pub raise : Severity → FaultEvent → Severity
raise highest e =
    if ltb (severity_rank highest) (severity_rank e.severity) then e.severity else highest

-- The loop of `highestSeverity`, from the highest severity so far.
unfoldable pub highest_from : Severity → List FaultEvent → Severity
highest_from highest [] = highest
highest_from highest (e ∷ es) = highest_from (raise highest e) es

unfoldable pub highest_severity : List FaultEvent → Severity
unfolding highest_from raise
highest_severity events = highest_from info events

abbrev pub is_nil {ℓ} : {A : Type ℓ} → List A → Bool
is_nil [] = true
is_nil (x ∷ xs) = false

unfoldable pub new_super_event :
    Option String → ℕ → String → ResourceRef → List FaultEvent → Result ModelError SuperEvent
new_super_event uuid now rule primary events =
    if is_empty rule
    then err empty_rule
    else if is_empty primary.kind
    then err empty_kind
    else if is_empty primary.name
    then err empty_name
    else if is_nil events
    then err no_events
    else elim uuid [
      | none ↦ err no_uuid
      | some id ↦ ok (record {
        id = id;
        correlation_rule = rule;
        primary_resource = primary;
        fault_events = events;
        timestamp = now;
        severity = highest_severity events;
      })
    ]
