-- ===== src/Analyzer/Reports/Source.antt =====
-- internal/analyzer/response.go: the event that a bundle is about.
use wormsign.Common.{String, Option, none, some}
use wormsign.Model.{Severity, warning, FaultEvent, SuperEvent, DiagnosticBundle}

abbrev pub id_of : Option SuperEvent → Option FaultEvent → String
id_of (some se) fe = se.id
id_of none (some fe) = fe.id
id_of none none = ""

-- `faultEventID`
unfoldable pub fault_event_id : DiagnosticBundle → String
fault_event_id bundle = id_of bundle.super_event bundle.fault_event

abbrev pub severity_of : Option SuperEvent → Option FaultEvent → Severity
severity_of (some se) fe = se.severity
severity_of none (some fe) = fe.severity
severity_of none none = warning

-- `originalSeverity`
unfoldable pub original_severity : DiagnosticBundle → Severity
original_severity bundle = severity_of bundle.super_event bundle.fault_event
