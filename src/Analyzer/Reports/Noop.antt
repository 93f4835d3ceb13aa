-- ===== src/Analyzer/Reports/Noop.antt =====
-- internal/analyzer/noop.go: the backend that passes a bundle on.
use wormsign.Common.{ℕ, String, Bool, false, [], Option, none, some, if◌then◌else◌, Result, ok, err}
use wormsign.Common.Int.{pos}
use wormsign.Model.{Severity, FaultEvent, SuperEvent, DiagnosticBundle, RcaReport}

pub data NoopError : Type 0 where
  no_logger context_done no_event : NoopError

-- A nil logger is `false`.
unfoldable pub new_noop_analyzer : Bool → Result NoopError (Unit {0})
new_noop_analyzer logger = if logger then ok tt else err no_logger

abbrev passed_on : {F : Type 0} → F → String → Severity → ℕ → DiagnosticBundle → RcaReport F
passed_on zero id severity now bundle = record {
  fault_event_id = id;
  timestamp = now;
  root_cause = "Automated analysis not performed — raw diagnostics attached";
  severity = severity;
  category = "unknown";
  systemic = false;
  blast_radius = "";
  remediation = [];
  related_resources = [];
  confidence = zero;
  raw_analysis = "";
  diagnostic_bundle = bundle;
  analyzer_backend = "noop";
  tokens_used = record { input = pos 0; output = pos 0 };
}

abbrev pass :
    {F : Type 0}
    → F
    → Option SuperEvent
    → Option FaultEvent
    → ℕ
    → DiagnosticBundle
    → Result NoopError (RcaReport F)
pass zero (some se) fe now bundle = ok (passed_on zero se.id se.severity now bundle)
pass zero none (some fe) now bundle = ok (passed_on zero fe.id fe.severity now bundle)
pass zero none none now bundle = err no_event

-- `zero` is the `float64` 0; a context that is done is `true`.
unfoldable pub analyze :
    {F : Type 0} → F → Bool → ℕ → DiagnosticBundle → Result NoopError (RcaReport F)
analyze zero done now bundle =
    if done then err context_done else pass zero bundle.super_event bundle.fault_event now bundle
