-- ===== src/Pipeline/Correlator/Config.antt =====
-- internal/pipeline/correlator/correlator.go: the configuration and its validation.
use wormsign.Common.{Bool, true, ◌&&◌, if◌then◌else◌, Option, none, some}
use wormsign.Common.Int.{ℤ, pos, ltb_ℤ}

pub record NodeCascadeConfig : Type 0 where
  pub enabled : Bool
  pub min_pod_failures : ℤ

pub record DeploymentRolloutConfig : Type 0 where
  pub enabled : Bool
  pub min_pod_failures : ℤ

pub record StorageCascadeConfig : Type 0 where
  pub enabled : Bool

pub record NamespaceStormConfig : Type 0 where
  pub enabled : Bool
  pub threshold : ℤ

pub record RulesConfig : Type 0 where
  pub node_cascade : NodeCascadeConfig
  pub deployment_rollout : DeploymentRolloutConfig
  pub storage_cascade : StorageCascadeConfig
  pub namespace_storm : NamespaceStormConfig

-- The window is in nanoseconds.
pub record Config : Type 0 where
  pub enabled : Bool
  pub window_duration : ℤ
  pub rules : RulesConfig

pub data ConfigError : Type 0 where
  bad_window bad_node_cascade bad_deployment_rollout bad_namespace_storm : ConfigError

unfoldable pub default_config : Config
default_config = record {
  enabled = true;
  window_duration = pos 120_000_000_000;
  rules = record {
    node_cascade = record { enabled = true; min_pod_failures = pos 2 };
    deployment_rollout = record { enabled = true; min_pod_failures = pos 3 };
    storage_cascade = record { enabled = true };
    namespace_storm = record { enabled = true; threshold = pos 20 };
  };
}

-- `none` is a nil error.
unfoldable pub validate_config : Config → Option ConfigError
validate_config cfg =
    if ltb_ℤ cfg.window_duration (pos 1)
    then some bad_window
    else if node_cascade.enabled && ltb_ℤ node_cascade.min_pod_failures (pos 1)
    then some bad_node_cascade
    else if deployment_rollout.enabled && ltb_ℤ deployment_rollout.min_pod_failures (pos 1)
    then some bad_deployment_rollout
    else if namespace_storm.enabled && ltb_ℤ namespace_storm.threshold (pos 1)
    then some bad_namespace_storm
    else none
  where
    open cfg.rules use {node_cascade, deployment_rollout, namespace_storm}
