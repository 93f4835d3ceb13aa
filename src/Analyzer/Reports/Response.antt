-- ===== src/Analyzer/Reports/Response.antt =====
-- internal/analyzer/response.go: from the text that a language model answers to a report. The decoder of
-- JSON and the expression for a code fence are parameters, and so are the numbers of type `float64`.
use wormsign.Common.{
  ℕ, ◌≡◌, String, Bool, false, not, ◌&&◌, List, [], ◌∷◌, Option, none, some, str_eq, any, map, keep,
  if◌then◌else◌,
}
use wormsign.Common.Text.{trim_space}
use wormsign.Model.{
  Severity, critical, warning, info, other, is_valid, ResourceRef, DiagnosticBundle, TokenUsage,
  RcaReport, is_empty,
}
use wormsign.Analyzer.Reports.Source.{fault_event_id, original_severity}

-- The comparisons of `float64`, for numbers that are not NaN, which JSON has no way to write.
pub record Floats : Type 1 where
  pub F : Type 0
  pub lt : F → F → Bool
  pub zero : F
  pub one : F
  pub lt_irrefl : (x : F) → lt x x ≡ false
  pub one_not_lt_zero : lt one zero ≡ false

pub record LlmResourceRef : Type 0 where
  pub kind : String
  pub namespace : String
  pub name : String

-- A nil `remediation` is `none`.
pub record LlmResponse (F : Type 0) : Type 0 where
  pub root_cause : String
  pub severity : String
  pub category : String
  pub systemic : Bool
  pub blast_radius : String
  pub remediation : Option (List String)
  pub related_resources : List LlmResourceRef
  pub confidence : F

-- `model.ValidCategories`
abbrev pub valid_categories : List String
valid_categories =
    "scheduling" ∷ "storage" ∷ "application" ∷ "networking" ∷ "resources" ∷ "node" ∷ "configuration"
    ∷ "unknown" ∷ []

unfoldable pub is_valid_category : String → Bool
is_valid_category category = any (λ c. str_eq c category) valid_categories

-- `model.Severity(s)`
abbrev pub severity_named : String → Severity
severity_named s =
    if str_eq s "critical"
    then critical
    else if str_eq s "warning"
    then warning
    else if str_eq s "info"
    then info
    else other s

abbrev pub ref_of : LlmResourceRef → ResourceRef
ref_of r = record { kind = r.kind; namespace = r.namespace; name = r.name; uid = "" }

abbrev pub or_nothing : Option (List String) → List String
or_nothing none = []
or_nothing (some xs) = xs

-- `unmarshal` is `none` where `json.Unmarshal` fails; `fenced` gives what the expression for a code
-- fence captures, if it matches.
pub record Decoder (F : Type 0) : Type 0 where
  pub unmarshal : String → Option (LlmResponse F)
  pub fenced : String → Option String

module _ (floats : Floats) where
  open floats use {F, lt, zero, one}

  unfoldable pub clamp : F → F
  clamp x = let low = if lt x zero then zero else x in if lt one low then one else low

  -- The report for a response, without the text of the answer.
  unfoldable pub report_from :
      LlmResponse F → DiagnosticBundle → String → TokenUsage → ℕ → RcaReport F
  report_from r bundle backend tokens now = record {
    fault_event_id = fault_event_id bundle;
    timestamp = now;
    root_cause = r.root_cause;
    severity =
        if is_valid (severity_named r.severity)
        then severity_named r.severity
        else original_severity bundle;
    category = if is_valid_category r.category then r.category else "unknown";
    systemic = r.systemic;
    blast_radius = r.blast_radius;
    remediation = or_nothing r.remediation;
    related_resources =
        map ref_of (keep (λ x. not (is_empty x.kind) && not (is_empty x.name)) r.related_resources);
    confidence = clamp r.confidence;
    raw_analysis = "";
    diagnostic_bundle = bundle;
    analyzer_backend = backend;
    tokens_used = tokens;
  }

  unfoldable pub build_fallback_report :
      String → DiagnosticBundle → String → TokenUsage → ℕ → RcaReport F
  build_fallback_report raw bundle backend tokens now = record {
    fault_event_id = fault_event_id bundle;
    timestamp = now;
    root_cause = "Automated analysis failed — raw diagnostics attached";
    severity = original_severity bundle;
    category = "unknown";
    systemic = false;
    blast_radius = "";
    remediation = [];
    related_resources = [];
    confidence = zero;
    raw_analysis = raw;
    diagnostic_bundle = bundle;
    analyzer_backend = backend;
    tokens_used = tokens;
  }

  abbrev pub with_root_cause : Option (LlmResponse F) → Option (LlmResponse F)
  with_root_cause none = none
  with_root_cause (some r) = if is_empty r.root_cause then none else some r

  module _ (decoder : Decoder F) where
    open decoder use {unmarshal, fenced}

    unfoldable pub parse_llm_json :
        String → DiagnosticBundle → String → TokenUsage → ℕ → Option (RcaReport F)
    parse_llm_json text bundle backend tokens now = elim (with_root_cause (unmarshal text)) [
      | none ↦ none
      | some r ↦ some (report_from r bundle backend tokens now)
    ]

    unfoldable pub extract_json_from_code_fence : String → String
    extract_json_from_code_fence text = elim (fenced text) [ none ↦ "" | some t ↦ trim_space t ]

    abbrev pub attempt :
        String → String → DiagnosticBundle → String → TokenUsage → ℕ → Option (RcaReport F)
    attempt raw text bundle backend tokens now =
        elim (parse_llm_json text bundle backend tokens now) [
          | none ↦ none
          | some report ↦ some (record report { raw_analysis = raw })
        ]

    unfoldable pub parse_llm_response :
        String → DiagnosticBundle → String → TokenUsage → ℕ → RcaReport F
    parse_llm_response raw bundle backend tokens now =
        let trimmed = trim_space raw in
        let extracted = extract_json_from_code_fence trimmed in
        let fallback = build_fallback_report raw bundle backend tokens now in
        elim (attempt raw trimmed bundle backend tokens now) [
          | some report ↦ report
          | none ↦
              if is_empty extracted
              then fallback
              else elim (attempt raw extracted bundle backend tokens now) [
                | some report ↦ report
                | none ↦ fallback
              ]
        ]
