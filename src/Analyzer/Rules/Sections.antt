-- ===== src/Analyzer/Rules/Sections.antt =====
-- internal/analyzer/rules.go: the parsers of the sections. A pattern of the logs is known by its name;
-- whether it matches a line is a parameter.
use wormsign.Common.{
  ℕ, zero, suc, String, Bool, true, false, not, ◌&&◌, List, [], ◌∷◌, ◌++◌, Option, none, some, map,
  str_eq, if◌then◌else◌,
}
use wormsign.Common.Text.{split, atoi}
use wormsign.Model.{is_empty}
use wormsign.Analyzer.Rules.Patterns.{
  Piece, literal, some_of, captured, choice, rest_of_line, blank, not_blank, digit_char, word_char,
  match_here, find,
}
use wormsign.Analyzer.Rules.Signals.{ContainerSignal, EventSignal, DiagnosticSignals, no_container}

abbrev pub lines_of : String → List String
lines_of = split 10

-- The captures, of which the patterns below have one, two or three.
abbrev pub nth : ℕ → List String → String
nth i [] = ""
nth zero (c ∷ cs) = c
nth (suc i) (c ∷ cs) = nth i cs

-- `rePodPhase`, `reContainerSection`, `reContainerImage` and `reContainerStatus`
abbrev pub pod_phase : List Piece
pod_phase = literal "Phase:" ∷ some_of blank ∷ captured not_blank ∷ []

abbrev pub container_section : List Piece
container_section = literal "Container:" ∷ some_of blank ∷ captured not_blank ∷ []

abbrev pub container_image : List Piece
container_image = some_of blank ∷ literal "Image:" ∷ some_of blank ∷ captured not_blank ∷ []

abbrev pub container_status : List Piece
container_status =
    some_of blank
    ∷ captured not_blank
    ∷ literal ":"
    ∷ some_of blank
    ∷ literal "ready="
    ∷ choice ("true" ∷ "false" ∷ [])
    ∷ literal ","
    ∷ some_of blank
    ∷ literal "restartCount="
    ∷ captured digit_char
    ∷ []

-- `reStateWaiting`, `reStateTerminated` and `reLastTermination`
abbrev pub state_waiting : List Piece
state_waiting =
    literal "State:"
    ∷ some_of blank
    ∷ literal "Waiting"
    ∷ some_of blank
    ∷ literal "(reason="
    ∷ captured word_char
    ∷ []

abbrev pub state_terminated : List Piece
state_terminated =
    literal "State:"
    ∷ some_of blank
    ∷ literal "Terminated"
    ∷ some_of blank
    ∷ literal "(exitCode="
    ∷ captured digit_char
    ∷ literal ","
    ∷ some_of blank
    ∷ literal "reason="
    ∷ captured word_char
    ∷ []

abbrev pub last_termination : List Piece
last_termination =
    literal "LastTermination:"
    ∷ some_of blank
    ∷ literal "exitCode="
    ∷ captured digit_char
    ∷ literal ","
    ∷ some_of blank
    ∷ literal "reason="
    ∷ captured word_char
    ∷ []

-- The state of the loop of `parsePodDescription`. The current container is the last one, once this
-- call has seen one.
pub record Description : Type 0 where
  pub signals : DiagnosticSignals
  pub has_current : Bool
  pub spec_container : String

abbrev pub with_image : String → String → ContainerSignal → ContainerSignal
with_image name image c = if str_eq c.name name then record c { image = image } else c

abbrev pub update_last :
    (ContainerSignal → ContainerSignal) → List ContainerSignal → List ContainerSignal
update_last f [] = []
update_last f (c ∷ []) = f c ∷ []
update_last f (c ∷ d ∷ cs) = c ∷ update_last f (d ∷ cs)

abbrev pub update_current : (ContainerSignal → ContainerSignal) → Description → Description
update_current f d = record d {
  signals = record d.signals { container_states = update_last f d.signals.container_states };
}

abbrev pub add_container : List String → Description → Description
add_container m d = record d {
  signals = record d.signals {
    container_states =
        d.signals.container_states
        ++ record no_container {
          name = nth 0 m;
          ready = str_eq (nth 1 m) "true";
          restart_count = atoi (nth 2 m);
        }
          ∷ [];
  };
  has_current = true;
}

abbrev pub is_match : Option (List String) → Bool
is_match none = false
is_match (some m) = true

abbrev pub captures_of : Option (List String) → List String
captures_of none = []
captures_of (some m) = m

-- The lines that say more of the current container.
unfoldable pub describe_current : String → Description → Description
describe_current line d =
    let waiting = find state_waiting line in
    let terminated = find state_terminated line in
    let last = find last_termination line in
    if is_match waiting
    then update_current
        (λ c. record c { state_type = "Waiting"; state_reason = nth 0 (captures_of waiting) }) d
    else if is_match terminated
    then update_current
        (λ c. record c {
          state_type = "Terminated";
          state_reason = nth 1 (captures_of terminated);
          exit_code = atoi (nth 0 (captures_of terminated));
        })
        d
    else if is_match last
    then update_current
        (λ c. record c {
          last_term_reason = nth 1 (captures_of last);
          last_term_exit_code = atoi (nth 0 (captures_of last));
        })
        d
    else d

-- One round of the loop of `parsePodDescription`.
unfoldable pub describe_line : Description → String → Description
unfolding describe_current
describe_line d line =
    let phase = match_here pod_phase line in
    let section = match_here container_section line in
    let image = match_here container_image line in
    let status = match_here container_status line in
    if is_match phase
    then record d { signals = record d.signals { pod_phase = nth 0 (captures_of phase) } }
    else if is_match section
    then record d { spec_container = nth 0 (captures_of section) }
    else if is_match image && not (is_empty d.spec_container)
    then record d {
      signals = record d.signals {
        container_states =
            map (with_image d.spec_container (nth 0 (captures_of image)))
              d.signals.container_states;
      };
    }
    else if is_match status
    then add_container (captures_of status) d
    else if d.has_current
    then describe_current line d
    else d

unfoldable pub describe_lines : Description → List String → Description
unfolding describe_line
describe_lines d [] = d
describe_lines d (line ∷ lines) = describe_lines (describe_line d line) lines

unfoldable pub parse_pod_description : String → DiagnosticSignals → DiagnosticSignals
unfolding describe_lines
parse_pod_description content s =
    (describe_lines (record { signals = s; has_current = false; spec_container = "" })
      (lines_of content)).signals

-- `reEvent`
abbrev pub event : List Piece
event =
    some_of blank
    ∷ some_of not_blank
    ∷ some_of blank
    ∷ choice ("Warning" ∷ "Normal" ∷ [])
    ∷ some_of blank
    ∷ captured word_char
    ∷ literal ":"
    ∷ some_of blank
    ∷ rest_of_line
    ∷ []

abbrev pub event_signal : List String → EventSignal
event_signal m = record { event_type = nth 0 m; reason = nth 1 m; message = nth 2 m }

-- The events that the lines show.
unfoldable pub event_lines : List String → List EventSignal
event_lines [] = []
event_lines (line ∷ lines) = elim (match_here event line) [
  | none ↦ event_lines lines
  | some m ↦ event_signal m ∷ event_lines lines
]

unfoldable pub parse_pod_events : String → DiagnosticSignals → DiagnosticSignals
unfolding event_lines
parse_pod_events content s = record s {
  event_messages = s.event_messages ++ event_lines (lines_of content);
}
