-- ===== src/Analyzer/Rules/Logs.antt =====
-- internal/analyzer/rules.go: the scan of the logs.
use wormsign.Common.{
  ℕ, suc, ◌+◌, ◌-◌, String, Bool, true, false, ◌||◌, List, [], ◌∷◌, ◌++◌, Option, none, some, ltb,
  leb, str_eq, length, take, drop, if◌then◌else◌,
}
use wormsign.Common.Text.{trim_space, join_with, strip_prefix}
use wormsign.Model.{is_empty}
use wormsign.Analyzer.Rules.Signals.{LogErrorSignal, DiagnosticSignals}
use wormsign.Analyzer.Rules.Sections.{lines_of}

-- The names of `logErrorPatterns`, in order.
abbrev pub log_error_patterns : List String
log_error_patterns =
    "oom" ∷ "probe-failure" ∷ "python-traceback" ∷ "python-exception" ∷ "java-exception"
    ∷ "java-caused-by" ∷ "java-oom" ∷ "java-stacktrace" ∷ "go-panic" ∷ "go-fatal" ∷ "go-goroutine"
    ∷ "node-unhandled" ∷ "node-error" ∷ "dotnet-exception" ∷ "rust-panic" ∷ "ruby-error"
    ∷ "connection-refused" ∷ "connection-reset" ∷ "timeout" ∷ "dns-failure" ∷ "tls-error"
    ∷ "permission-denied" ∷ "auth-failure" ∷ "no-such-file" ∷ "disk-full" ∷ "read-only-fs"
    ∷ "segfault" ∷ "command-not-found" ∷ "db-connection" ∷ "db-error" ∷ "level-fatal"
    ∷ "level-critical" ∷ "level-error" ∷ []

abbrev has_front : String → String → Bool
has_front t s = elim (strip_prefix t s) [ none ↦ false | some r ↦ true ]

-- `containerBlockHeader`
unfoldable pub is_block_header : String → Bool
is_block_header line = has_front "--- Init Container:" line || has_front "--- Container:" line

-- The lines around the match, at most 5.
unfoldable pub extract_context_window : List String → ℕ → ℕ → ℕ → String
extract_context_window lines i before after =
    let start = i - before in
    let end = if ltb (length lines) (i + after + 1) then length lines else i + after + 1 in
    let last = if ltb 5 (end - start) then start + 5 else end in
    join_with "\n" (take (last - start) (drop start lines))

module _ (log_matches : String → String → Bool) where
  -- The first of the patterns that matches the line.
  unfoldable pub first_pattern : List String → String → Option String
  first_pattern [] line = none
  first_pattern (p ∷ ps) line =
      let rest = first_pattern ps line in if log_matches p line then some p else rest

  -- The error that a line shows, if it shows one.
  unfoldable pub log_error : List String → ℕ → String → Option LogErrorSignal
  unfolding first_pattern
  log_error lines i line =
      let trimmed = trim_space line in
      if is_block_header line || (is_empty trimmed || str_eq trimmed "(no logs)")
      then none
      else elim (first_pattern log_error_patterns line) [
        | none ↦ none
        | some p ↦ some (record { pattern = p; snippet = extract_context_window lines i 3 1 })
      ]

  abbrev pub counted : ℕ → Option LogErrorSignal → ℕ
  counted matched none = matched
  counted matched (some e) = suc matched

  abbrev pub with_error : Option LogErrorSignal → List LogErrorSignal → List LogErrorSignal
  with_error none es = es
  with_error (some e) es = e ∷ es

  -- The loop of `parsePodLogs` from line `i` on, with the number of matches so far: it ends at 10.
  unfoldable pub log_errors_from : List String → ℕ → ℕ → List String → List LogErrorSignal
  log_errors_from lines i matched [] = []
  log_errors_from lines i matched (line ∷ rest) =
      let found = log_error lines i line in
      let later = log_errors_from lines (suc i) (counted matched found) rest in
      if leb 10 matched then [] else with_error found later

  unfoldable pub parse_pod_logs : String → DiagnosticSignals → DiagnosticSignals
  parse_pod_logs content s = record s {
    log_errors = s.log_errors ++ log_errors_from (lines_of content) 0 0 (lines_of content);
  }
