-- ===== src/Filter/Types.antt =====
-- The data of internal/filter/engine.go. A nil map or selector is `none`.
use wormsign.Common.{ℕ, String, Bool, List, Option}
use wormsign.Model.{StringMap}

pub data FilterReason : Type 0 where
  namespace_global namespace_label suppress_policy namespace_annotation : FilterReason
  resource_annotation owner_annotation policy_exclude : FilterReason

-- The reason of a result that is not excluded is `none`.
pub record FilterResult : Type 0 where
  pub excluded : Bool
  pub reason : Option FilterReason
  pub detector_excluded : Bool
  pub excluded_detectors : List String

pub record ResourceMeta : Type 0 where
  pub kind : String
  pub namespace : String
  pub name : String
  pub uid : String
  pub labels : Option StringMap
  pub annotations : Option StringMap

pub record NamespaceMeta : Type 0 where
  pub name : String
  pub labels : Option StringMap
  pub annotations : Option StringMap

pub record OwnerMeta : Type 0 where
  pub kind : String
  pub name : String
  pub uid : String
  pub annotations : Option StringMap

pub data PolicyAction : Type 0 where
  exclude suppress : PolicyAction
  other_action : String → PolicyAction

pub data SelectorOperator : Type 0 where
  op_in op_not_in op_exists op_does_not_exist : SelectorOperator
  other_operator : String → SelectorOperator

pub record LabelSelectorRequirement : Type 0 where
  pub key : String
  pub operator : SelectorOperator
  pub values : List String

pub record LabelSelector : Type 0 where
  pub match_labels : StringMap
  pub match_expressions : List LabelSelectorRequirement

pub record PolicySchedule : Type 0 where
  pub start : ℕ
  pub end : ℕ

pub record Policy : Type 0 where
  pub name : String
  pub namespace : String
  pub action : PolicyAction
  pub detectors : List String
  pub namespace_selector : Option LabelSelector
  pub resource_selector : Option LabelSelector
  pub owner_names : List String
  pub schedule : Option PolicySchedule

pub record FilterInput : Type 0 where
  pub detector_name : String
  pub resource : ResourceMeta
  pub namespace : NamespaceMeta
  pub owners : List OwnerMeta

pub record GlobalFilterConfig : Type 0 where
  pub exclude_namespaces : List String
  pub exclude_namespace_selector : Option LabelSelector
