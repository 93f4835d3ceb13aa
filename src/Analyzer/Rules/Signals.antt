-- ===== src/Analyzer/Rules/Signals.antt =====
-- internal/analyzer/rules.go: the signals that the rules look at.
use wormsign.Common.{ℕ, String, Bool, false, List, []}

pub record ContainerSignal : Type 0 where
  pub name : String
  pub ready : Bool
  pub restart_count : ℕ
  pub state_type : String
  pub state_reason : String
  pub exit_code : ℕ
  pub last_term_reason : String
  pub last_term_exit_code : ℕ
  pub image : String

pub record EventSignal : Type 0 where
  pub event_type : String
  pub reason : String
  pub message : String

pub record LogErrorSignal : Type 0 where
  pub pattern : String
  pub snippet : String

pub record DiagnosticSignals : Type 0 where
  pub pod_phase : String
  pub container_states : List ContainerSignal
  pub event_messages : List EventSignal
  pub log_errors : List LogErrorSignal
  pub deployment_name : String
  pub desired_replicas : ℕ
  pub ready_replicas : ℕ
  pub available_replicas : ℕ
  pub rollout_condition : String
  pub pvc_phase : String
  pub storage_class : String
  pub node_not_ready : Bool
  pub memory_pressure : Bool
  pub disk_pressure : Bool

-- The zero values of the two records.
abbrev pub no_container : ContainerSignal
no_container = record {
  name = "";
  ready = false;
  restart_count = 0;
  state_type = "";
  state_reason = "";
  exit_code = 0;
  last_term_reason = "";
  last_term_exit_code = 0;
  image = "";
}

abbrev pub no_signals : DiagnosticSignals
no_signals = record {
  pod_phase = "";
  container_states = [];
  event_messages = [];
  log_errors = [];
  deployment_name = "";
  desired_replicas = 0;
  ready_replicas = 0;
  available_replicas = 0;
  rollout_condition = "";
  pvc_phase = "";
  storage_class = "";
  node_not_ready = false;
  memory_pressure = false;
  disk_pressure = false;
}
