-- ===== src/Gatherer/PodEvents.antt =====
-- internal/gatherer/pod_events.go. What the API lists is an argument, `none` being its error. A time is
-- given by its text in the format of the source, a zero time by `none`.
use wormsign.Common.{String, List, [], ◌∷◌, ◌++◌, Option, none, some, map, if◌then◌else◌}
use wormsign.Common.Int.{ℤ, pos, ltb_ℤ}
use wormsign.Common.Text.{texts, decimal_int}
use wormsign.Model.{ResourceRef, DiagnosticSection, is_nil}

pub record Event : Type 0 where
  pub last_timestamp : Option String
  pub event_time : Option String
  pub type : String
  pub reason : String
  pub message : String
  pub count : ℤ

abbrev pub first_time : Option String → Option String → String
first_time (some t) e = t
first_time none (some t) = t
first_time none none = "0001-01-01T00:00:00Z"

-- How often the event was seen, if more than once.
unfoldable pub count_suffix : ℤ → String
count_suffix n = if ltb_ℤ (pos 1) n then texts (" (x" ∷ decimal_int n ∷ ")" ∷ []) else ""

unfoldable pub event_line : Event → String
event_line e = texts (
    "  "
    ∷ first_time e.last_timestamp e.event_time
    ∷ "  "
    ∷ e.type
    ∷ "  "
    ∷ e.reason
    ∷ ": "
    ∷ e.message
    ∷ count_suffix e.count
    ∷ [])

-- Each line with its end.
unfoldable pub ended : List String → String
ended [] = ""
ended (l ∷ ls) = texts (l ∷ "\n" ∷ ended ls ∷ [])

abbrev pub header_line : ResourceRef → String
header_line ref = texts ("Events for Pod " ∷ ref.namespace ∷ "/" ∷ ref.name ∷ ":" ∷ [])

unfoldable pub content_of : ResourceRef → List Event → String
content_of ref events = ended (
    header_line ref
    ∷ ((if is_nil events then "  (no events found)" ∷ [] else []) ++ map event_line events))

abbrev pub redacted : Option (String → String) → String → String
redacted none content = content
redacted (some redact) content = redact content

-- `Gather`; a nil redactor is `none`.
unfoldable pub gather :
    Option (String → String) → ResourceRef → Option (List Event) → Option DiagnosticSection
gather redactor ref none = none
gather redactor ref (some events) = some (record {
  gatherer_name = "PodEvents";
  title = "Pod Events";
  content = redacted redactor (content_of ref events);
  format = "text";
  error = "";
})
