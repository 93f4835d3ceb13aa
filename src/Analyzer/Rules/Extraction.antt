-- ===== src/Analyzer/Rules/Extraction.antt =====
-- internal/analyzer/rules.go: the parsers of the other sections, and `extractSignals`.
use wormsign.Common.{
  String, Bool, true, not, ◌&&◌, List, [], ◌∷◌, Option, none, some, str_eq, if◌then◌else◌,
}
use wormsign.Common.Text.{atoi}
use wormsign.Model.{DiagnosticSection, DiagnosticBundle, is_empty}
use wormsign.Analyzer.Rules.Patterns.{
  Piece, literal, some_of, captured, choice, blank, not_blank, digit_char, word_char, match_here,
  find,
}
use wormsign.Analyzer.Rules.Signals.{DiagnosticSignals, no_signals}
use wormsign.Analyzer.Rules.Sections.{lines_of, nth, parse_pod_description, parse_pod_events}
use wormsign.Analyzer.Rules.Logs.{parse_pod_logs}

-- `reDeploymentOwner` and `reReplicaCounts`
abbrev pub deployment_owner : List Piece
deployment_owner = literal "Deployment/" ∷ captured not_blank ∷ []

abbrev pub replica_counts : List Piece
replica_counts =
    literal "Replicas:"
    ∷ some_of blank
    ∷ captured digit_char
    ∷ some_of blank
    ∷ literal "desired,"
    ∷ some_of blank
    ∷ captured digit_char
    ∷ some_of blank
    ∷ literal "ready,"
    ∷ some_of blank
    ∷ captured digit_char
    ∷ some_of blank
    ∷ literal "available"
    ∷ []

abbrev pub set_replicas : Option (List String) → DiagnosticSignals → DiagnosticSignals
set_replicas none s = s
set_replicas (some m) s = record s {
  desired_replicas = atoi (nth 0 m);
  ready_replicas = atoi (nth 1 m);
  available_replicas = atoi (nth 2 m);
}

abbrev pub set_deployment : Option (List String) → DiagnosticSignals → DiagnosticSignals
set_deployment none s = s
set_deployment (some m) s = record s { deployment_name = nth 0 m }

unfoldable pub owner_lines : DiagnosticSignals → List String → DiagnosticSignals
owner_lines s [] = s
owner_lines s (line ∷ lines) =
    owner_lines
      (set_replicas (find replica_counts line) (set_deployment (find deployment_owner line) s))
      lines

unfoldable pub parse_owner_chain : String → DiagnosticSignals → DiagnosticSignals
unfolding owner_lines
parse_owner_chain content s = owner_lines s (lines_of content)

-- `reDeploymentLine`, `reDesiredReadyAvail` and `reCondition`
abbrev pub deployment_line : List Piece
deployment_line =
    literal "Deployment:"
    ∷ some_of blank
    ∷ some_of not_blank
    ∷ literal "/"
    ∷ captured not_blank
    ∷ []

abbrev pub desired_ready_available : List Piece
desired_ready_available =
    literal "Desired:"
    ∷ some_of blank
    ∷ captured digit_char
    ∷ literal ","
    ∷ some_of blank
    ∷ literal "Ready:"
    ∷ some_of blank
    ∷ captured digit_char
    ∷ literal ","
    ∷ some_of blank
    ∷ literal "Available:"
    ∷ some_of blank
    ∷ captured digit_char
    ∷ []

abbrev pub condition : List Piece
condition =
    literal "Condition"
    ∷ some_of blank
    ∷ captured word_char
    ∷ literal ":"
    ∷ some_of blank
    ∷ some_of word_char
    ∷ some_of blank
    ∷ literal "(Reason:"
    ∷ some_of blank
    ∷ captured word_char
    ∷ literal ")"
    ∷ []

abbrev pub name_if_unset : Option (List String) → DiagnosticSignals → DiagnosticSignals
name_if_unset m s = if is_empty s.deployment_name then set_deployment m s else s

abbrev pub set_rollout : Option (List String) → DiagnosticSignals → DiagnosticSignals
set_rollout none s = s
set_rollout (some m) s = record s { rollout_condition = nth 1 m }

unfoldable pub replica_set_lines : DiagnosticSignals → List String → DiagnosticSignals
replica_set_lines s [] = s
replica_set_lines s (line ∷ lines) =
    replica_set_lines
      (set_rollout (find condition line) (
        set_replicas (find desired_ready_available line)
          (name_if_unset (match_here deployment_line line) s)))
      lines

unfoldable pub parse_replica_set_status : String → DiagnosticSignals → DiagnosticSignals
unfolding replica_set_lines
parse_replica_set_status content s = replica_set_lines s (lines_of content)

-- `rePVCPhase` and `reStorageClass`
abbrev pub pvc_phase_line : List Piece
pvc_phase_line = literal "Phase:" ∷ some_of blank ∷ captured not_blank ∷ []

abbrev pub storage_class_line : List Piece
storage_class_line = literal "StorageClass:" ∷ some_of blank ∷ captured not_blank ∷ []

abbrev pub set_pvc_phase : Option (List String) → DiagnosticSignals → DiagnosticSignals
set_pvc_phase none s = s
set_pvc_phase (some m) s = record s { pvc_phase = nth 0 m }

abbrev pub set_storage_class : Option (List String) → DiagnosticSignals → DiagnosticSignals
set_storage_class none s = s
set_storage_class (some m) s = record s { storage_class = nth 0 m }

unfoldable pub pvc_lines : DiagnosticSignals → List String → DiagnosticSignals
pvc_lines s [] = s
pvc_lines s (line ∷ lines) =
    pvc_lines
      (set_storage_class (match_here storage_class_line line)
        (set_pvc_phase (match_here pvc_phase_line line) s))
      lines

unfoldable pub parse_pvc_status : String → DiagnosticSignals → DiagnosticSignals
unfolding pvc_lines
parse_pvc_status content s = pvc_lines s (lines_of content)

-- `reNodeCondition`
abbrev pub node_condition : List Piece
node_condition =
    some_of blank
    ∷ captured word_char
    ∷ literal ":"
    ∷ some_of blank
    ∷ choice ("True" ∷ "False" ∷ "Unknown" ∷ [])
    ∷ []

abbrev pub note_condition : String → String → DiagnosticSignals → DiagnosticSignals
note_condition type status s =
    if str_eq type "Ready"
    then (if str_eq status "True" then s else record s { node_not_ready = true })
    else if str_eq type "MemoryPressure"
    then (if str_eq status "True" then record s { memory_pressure = true } else s)
    else if str_eq type "DiskPressure"
    then (if str_eq status "True" then record s { disk_pressure = true } else s)
    else s

abbrev pub note_captures : Option (List String) → DiagnosticSignals → DiagnosticSignals
note_captures none s = s
note_captures (some m) s = note_condition (nth 0 m) (nth 1 m) s

unfoldable pub node_lines : DiagnosticSignals → List String → DiagnosticSignals
node_lines s [] = s
node_lines s (line ∷ lines) = node_lines (note_captures (match_here node_condition line) s) lines

unfoldable pub parse_node_conditions : String → DiagnosticSignals → DiagnosticSignals
unfolding node_lines
parse_node_conditions content s = node_lines s (lines_of content)

module _ (log_matches : String → String → Bool) where
  -- The switch on the title of a section.
  unfoldable pub parse_section : DiagnosticSection → DiagnosticSignals → DiagnosticSignals
  parse_section section s =
      if str_eq section.title "Pod Description"
      then parse_pod_description section.content s
      else if str_eq section.title "Pod Events"
      then parse_pod_events section.content s
      else if str_eq section.title "Pod Logs"
      then parse_pod_logs log_matches section.content s
      else if str_eq section.title "Owner Chain"
      then parse_owner_chain section.content s
      else if str_eq section.title "ReplicaSet Status"
      then parse_replica_set_status section.content s
      else if str_eq section.title "PVC Status"
      then parse_pvc_status section.content s
      else if str_eq section.title "Node Conditions"
      then parse_node_conditions section.content s
      else s

  -- A section that has an error and no content is skipped.
  unfoldable pub extract_from : DiagnosticSignals → List DiagnosticSection → DiagnosticSignals
  extract_from s [] = s
  extract_from s (section ∷ sections) =
      extract_from
        (if not (is_empty section.error) && is_empty section.content
          then s
          else parse_section section s)
        sections

  unfoldable pub extract_signals : DiagnosticBundle → DiagnosticSignals
  unfolding extract_from
  extract_signals bundle = extract_from no_signals bundle.sections
