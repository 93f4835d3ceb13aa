-- ===== src/Analyzer/Rules/Tests.antt =====
-- Runs of the analyzer of the rules, with confidences in hundredths, and its theorems at an example.
use wormsign.Common.{ℕ, ◌≤◌, ◌≡◌, refl, inr, String, Bool, false, [], ◌∷◌, none, some, ok}
use wormsign.Common.Int.{pos}
use wormsign.Common.Text.{texts, quote, split, strip_prefix, atoi}
use wormsign.Model.{
  critical, warning, FaultEvent, DiagnosticSection, DiagnosticBundle, RcaReport, is_nil,
}
use wormsign.Analyzer.Reports.Source.{original_severity}
use wormsign.Analyzer.Reports.Valid.{IsFaithful}
use wormsign.Analyzer.Rules.Signals.{ContainerSignal}
use wormsign.Analyzer.Rules.Patterns.{match_here, find, repeat_class, first_choice}
use wormsign.Analyzer.Rules.Sections.{
  parse_pod_description, describe_lines, describe_line, describe_current,
}
use wormsign.Analyzer.Rules.Extraction.{extract_signals, extract_from, parse_section}
use wormsign.Analyzer.Rules.Analyze.{analyze}
use wormsign.Analyzer.Rules.Verdict.{analyze-IsSound}
use wormsign.Analyzer.Rules.Oom.{analyze_oom}

abbrev pod_event : FaultEvent
pod_event = record {
  id = "e-7";
  detector_name = "PodCrashLoop";
  severity = warning;
  timestamp = 10;
  resource = record { kind = "Pod"; namespace = "shop"; name = "web-0"; uid = "u" };
  description = "";
  labels = [];
  annotations = [];
}

abbrev description : DiagnosticSection
description = record {
  gatherer_name = "PodDescribe";
  title = "Pod Description";
  content =
      "Container: app\n  Image: web:1\n  app: ready=false, restartCount=7\n    LastTermination: exitCode=137, reason=OOMKilled\n";
  format = "text";
  error = "";
}

abbrev bundle : DiagnosticBundle
bundle = record {
  fault_event = some pod_event;
  super_event = none;
  timestamp = 11;
  sections = description ∷ [];
}

abbrev no_match : String → String → Bool
no_match pattern line = false

abbrev app : ContainerSignal
app = record {
  name = "app";
  ready = false;
  restart_count = 7;
  state_type = "";
  state_reason = "";
  exit_code = 0;
  last_term_reason = "OOMKilled";
  last_term_exit_code = 137;
  image = "";
}

-- The image of a container that is described before its status is lost.
described : (extract_signals no_match bundle).container_states ≡ app ∷ []
unfolding extract_signals extract_from parse_section parse_pod_description describe_lines
    describe_line describe_current split match_here strip_prefix repeat_class first_choice find atoi
described = refl

analyze-IsSound_example :
    (r : RcaReport ℕ) × (c : ℕ) × (analyze (λ n. n) no_match false 12 bundle ≡ ok r)
    × IsFaithful bundle r
    × (r.confidence ≡ c)
    × (30 ≤ c)
    × (c ≤ 90)
    × (is_nil r.remediation ≡ false)
    × (r.analyzer_backend ≡ "rules")
    × (r.tokens_used ≡ record { input = pos 0; output = pos 0 })
unfolding original_severity
analyze-IsSound_example = analyze-IsSound bundle refl (λ n. n) no_match 12 refl

analyze_oom_example :
    (r : RcaReport ℕ) × (analyze (λ n. n) no_match false 12 bundle ≡ ok r)
    × ((restarts : String) × (r.root_cause
          ≡ texts ("Container " ∷ quote "app" ∷ " was OOM-killed (exit code 137)" ∷ restarts ∷ [])))
    × (r.severity ≡ critical)
    × (r.category ≡ "resources")
    × (r.confidence ≡ 90)
    × (is_nil r.remediation ≡ false)
analyze_oom_example = analyze_oom (λ n. n) no_match 12 bundle [] [] app refl described tt (inr refl)
