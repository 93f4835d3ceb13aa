-- ===== src/Filter/Tests.antt =====
-- An engine with one exact pattern, one regular expression and two policies.
use wormsign.Common.{◌≡◌, ◌↔◌, refl, String, true, [], ◌∷◌, Option, none, some, str_eq, any}
use wormsign.Common.Keys.{string_eq}
use wormsign.Common.Maps.{lookup}
use wormsign.Model.{StringMap}
use wormsign.Common.Text.{equal_fold, split, trim_space, trim_left, trim_right}
use wormsign.Filter.Types.{
  suppress_policy, suppress, Policy, FilterInput, LabelSelector, op_in, op_not_in,
}
use wormsign.Filter.Selectors.{
  contains_detector, get_excluded_detectors, get_owner_excluded_detectors, matches_labels,
  matches_label_requirement, matches_label_selector,
}
use wormsign.Filter.Engine.{
  Patterns, Engine, anchor, exactly, evaluate, matches_global_namespace_exclusion, pattern_matches,
  matches_namespace_label_selector, first_policy, suppresses, is_active,
  policy_applies_to_namespace, excluded_for, not_excluded,
}
use wormsign.Filter.Levels.{IsFirst}
use wormsign.Filter.Precedence.{levels, evaluate-IsFirst}
use wormsign.Filter.Matching.{Selects, matches_label_selector-Selects}
use wormsign.Filter.Owners.{IsDistinct, excludes_detector, get_owner_excluded_detectors-union}

-- Every expression compiles, and matches the name that is its own text; a pattern is compared as a text.
abbrev literal : Patterns
literal = record {
  Regexp = String;
  compile = some;
  match_string = str_eq;
  glob = λ p n. some (str_eq p n);
}

abbrev freeze : Policy
freeze = record {
  name = "freeze";
  namespace = "shop";
  action = suppress;
  detectors = "PodFailed" ∷ [];
  namespace_selector = none;
  resource_selector = none;
  owner_names = [];
  schedule = some (record { start = 10; end = 20 });
}

abbrev engine : Engine literal
engine = record {
  global_config = record {
    exclude_namespaces = "kube-system" ∷ [];
    exclude_namespace_selector = none;
  };
  compiled_patterns = exactly "kube-system" ∷ [];
  policies = freeze ∷ [];
}

abbrev noted : Option StringMap
noted = some (("wormsign.io/exclude-detectors", "PodFailed, , PodCrashLoop") ∷ [])

abbrev input : FilterInput
input = record {
  detector_name = "PodFailed";
  resource = record {
    kind = "Pod";
    namespace = "shop";
    name = "cart-0";
    uid = "u1";
    labels = none;
    annotations = noted;
  };
  namespace = record { name = "shop"; labels = none; annotations = none };
  owners = record { kind = "ReplicaSet"; name = "cart"; uid = "u2"; annotations = noted } ∷ [];
}

parsed : get_excluded_detectors noted ≡ "PodFailed" ∷ "PodCrashLoop" ∷ []
unfolding get_excluded_detectors lookup split trim_space trim_left trim_right
parsed = refl

folded : equal_fold "TrUe" "true" ≡ true
unfolding equal_fold
folded = refl

-- The alternatives of an expression are not taken together when it is anchored.
anchored : anchor literal "kube-.*|istio" ≡ "^kube-.*|istio$"
unfolding anchor
anchored = refl

frozen : evaluate literal engine 15 input ≡ excluded_for suppress_policy
unfolding evaluate matches_global_namespace_exclusion pattern_matches
    matches_namespace_label_selector first_policy suppresses is_active policy_applies_to_namespace
    contains_detector
frozen = refl

evaluate-IsFirst_example :
    IsFirst (levels literal engine 30 input) not_excluded (evaluate literal engine 30 input)
evaluate-IsFirst_example = evaluate-IsFirst literal engine 30 input (refl, tt)

get_owner_excluded_detectors-union_example :
    ((d : String)
      → contains_detector (get_owner_excluded_detectors input.owners) d
        ≡ any (excludes_detector d) input.owners)
    × IsDistinct (get_owner_excluded_detectors input.owners)
get_owner_excluded_detectors-union_example = get_owner_excluded_detectors-union input.owners

abbrev shop_labels : StringMap
shop_labels = ("app", "cart") ∷ []

abbrev wanted : StringMap
wanted = ("app", "cart") ∷ []

abbrev canary : LabelSelector
canary = record {
  match_labels = ("canary", "") ∷ wanted;
  match_expressions =
      record { key = "tier"; operator = op_not_in; values = "batch" ∷ [] }
      ∷ record { key = "app"; operator = op_in; values = "web" ∷ "cart" ∷ [] }
      ∷ [];
}

-- The labels lack "canary", which is wanted with an empty value.
canary_matches : matches_label_selector (some shop_labels) canary ≡ true
unfolding matches_label_selector matches_labels matches_label_requirement lookup
canary_matches = refl

matches_label_selector-Selects_example :
    (matches_label_selector (some shop_labels) canary ≡ true) ↔ Selects (some shop_labels) canary
matches_label_selector-Selects_example = matches_label_selector-Selects (some shop_labels) canary
