-- ===== src/Analyzer/Reports/Tests.antt =====
-- Reports for the answers of a model, with numbers in hundredths, and the theorem about them at an
-- example.
use wormsign.Common.{◌≡◌, refl, true, false, arith, [], ◌∷◌, none, some, str_eq, if◌then◌else◌}
use wormsign.Common.Int.{ℤ, pos, negsuc, ltb_ℤ}
use wormsign.Common.Text.{trim_space}
use wormsign.Model.{warning, FaultEvent, DiagnosticBundle, TokenUsage}
use wormsign.Analyzer.Reports.Source.{fault_event_id, original_severity}
use wormsign.Analyzer.Reports.Response.{
  Floats, LlmResponse, Decoder, is_valid_category, clamp, report_from, parse_llm_json,
  extract_json_from_code_fence, parse_llm_response,
}
use wormsign.Analyzer.Reports.Valid.{Promises, parse_llm_response-Promises}

ltb_ℤ_irrefl : (x : ℤ) → ltb_ℤ x x ≡ false
ltb_ℤ_irrefl (pos n) = ground arith
ltb_ℤ_irrefl (negsuc n) = ground arith

abbrev hundredths : Floats
hundredths = record {
  F = ℤ;
  lt = ltb_ℤ;
  zero = pos 0;
  one = pos 100;
  lt_irrefl = ltb_ℤ_irrefl;
  one_not_lt_zero = refl;
}

-- An answer of a category that is not known and a confidence above 1.
abbrev answer : LlmResponse ℤ
answer = record {
  root_cause = "The disk is full";
  severity = "catastrophic";
  category = "weather";
  systemic = true;
  blast_radius = "one node";
  remediation = none;
  related_resources =
      record { kind = "Node"; namespace = ""; name = "n1" }
      ∷ record { kind = ""; namespace = "a"; name = "b" }
      ∷ [];
  confidence = pos 250;
}

-- The answer is in a code fence.
abbrev decoder : Decoder ℤ
decoder = record {
  unmarshal = λ text. if str_eq text "{}" then some answer else none;
  fenced = λ text. if str_eq text "see:\n```{}```" then some " {} " else none;
}

abbrev disk_event : FaultEvent
disk_event = record {
  id = "e-1";
  detector_name = "NodeNotReady";
  severity = warning;
  timestamp = 10;
  resource = record { kind = "Node"; namespace = ""; name = "n1"; uid = "u" };
  description = "";
  labels = [];
  annotations = [];
}

abbrev bundle : DiagnosticBundle
bundle = record { fault_event = some disk_event; super_event = none; timestamp = 11; sections = [] }

abbrev tokens : TokenUsage
tokens = record { input = pos 700; output = pos 90 }

fenced_answer :
    (parse_llm_response hundredths decoder "see:\n```{}```\n" bundle "claude" tokens 12) ≡ record {
      fault_event_id = "e-1";
      timestamp = 12;
      root_cause = "The disk is full";
      severity = warning;
      category = "unknown";
      systemic = true;
      blast_radius = "one node";
      remediation = [];
      related_resources = record { kind = "Node"; namespace = ""; name = "n1"; uid = "" } ∷ [];
      confidence = pos 100;
      raw_analysis = "see:\n```{}```\n";
      diagnostic_bundle = bundle;
      analyzer_backend = "claude";
      tokens_used = tokens;
    }
unfolding parse_llm_response parse_llm_json report_from clamp extract_json_from_code_fence
    is_valid_category fault_event_id original_severity trim_space
fenced_answer = refl

-- The fenced answer.
parse_llm_response-Promises_example :
    Promises hundredths "see:\n```{}```\n" bundle "claude" tokens
      (parse_llm_response hundredths decoder "see:\n```{}```\n" bundle "claude" tokens 12)
parse_llm_response-Promises_example =
    parse_llm_response-Promises hundredths decoder "see:\n```{}```\n" bundle "claude" tokens 12
