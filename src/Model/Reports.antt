-- ===== src/Model/Reports.antt =====
-- internal/model/types.go: diagnostic bundles and reports.
use wormsign.Common.{ℕ, String, Bool, List, [], Option, none, some}
use wormsign.Common.Int.{ℤ, ◌+ℤ◌}
use wormsign.Model.Ranks.{Severity}
use wormsign.Model.Events.{ResourceRef, FaultEvent, SuperEvent}

pub record DiagnosticSection : Type 0 where
  pub gatherer_name : String
  pub title : String
  pub content : String
  pub format : String
  pub error : String

-- A nil event is `none`.
pub record DiagnosticBundle : Type 0 where
  pub fault_event : Option FaultEvent
  pub super_event : Option SuperEvent
  pub timestamp : ℕ
  pub sections : List DiagnosticSection

abbrev or_no_sections : Option (List DiagnosticSection) → List DiagnosticSection
or_no_sections none = []
or_no_sections (some sections) = sections

unfoldable pub new_diagnostic_bundle :
    FaultEvent → Option (List DiagnosticSection) → ℕ → DiagnosticBundle
new_diagnostic_bundle fe sections now = record {
  fault_event = some fe;
  super_event = none;
  timestamp = now;
  sections = or_no_sections sections;
}

unfoldable pub new_super_event_diagnostic_bundle :
    SuperEvent → Option (List DiagnosticSection) → ℕ → DiagnosticBundle
new_super_event_diagnostic_bundle se sections now = record {
  fault_event = none;
  super_event = some se;
  timestamp = now;
  sections = or_no_sections sections;
}

pub record TokenUsage : Type 0 where
  pub input : ℤ
  pub output : ℤ

unfoldable pub total : TokenUsage → ℤ
total t = t.input +ℤ t.output

-- `F` is the type of `float64`.
pub record RcaReport (F : Type 0) : Type 0 where
  pub fault_event_id : String
  pub timestamp : ℕ
  pub root_cause : String
  pub severity : Severity
  pub category : String
  pub systemic : Bool
  pub blast_radius : String
  pub remediation : List String
  pub related_resources : List ResourceRef
  pub confidence : F
  pub raw_analysis : String
  pub diagnostic_bundle : DiagnosticBundle
  pub analyzer_backend : String
  pub tokens_used : TokenUsage
