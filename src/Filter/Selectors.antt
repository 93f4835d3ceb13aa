-- ===== src/Filter/Selectors.antt =====
-- internal/filter/engine.go: label selectors and annotations.
use wormsign.Common.{
  String, Bool, true, false, not, ◌&&◌, List, [], ◌∷◌, ◌++◌, Option, none, some, str_eq, any, all,
  keep, map, if◌then◌else◌,
}
use wormsign.Common.Keys.{string_eq}
use wormsign.Common.Maps.{lookup}
use wormsign.Model.{StringMap, is_empty}
use wormsign.Common.Text.{equal_fold, split, trim_space}
use wormsign.Filter.Types.{
  OwnerMeta, LabelSelector, LabelSelectorRequirement, SelectorOperator, op_in, op_not_in, op_exists,
  op_does_not_exist, other_operator,
}

-- `val, ok := m[k]`, where the map may be nil.
abbrev pub value_of : Option StringMap → String → Option String
value_of none k = none
value_of (some m) k = lookup k m

-- `m[k]`, the empty text for a missing key.
abbrev pub text_of : Option String → String
text_of none = ""
text_of (some v) = v

-- `containsDetector`
unfoldable pub contains_detector : List String → String → Bool
contains_detector detectors name = any (λ d. str_eq d name) detectors

abbrev pub one_of : List String → Option String → Bool
one_of values none = false
one_of values (some v) = any (λ w. str_eq w v) values

abbrev pub is_present : Option String → Bool
is_present none = false
is_present (some v) = true

abbrev pub matches_operator : SelectorOperator → List String → Option String → Bool
matches_operator op_in values v = one_of values v
matches_operator op_not_in values v = not (one_of values v)
matches_operator op_exists values v = is_present v
matches_operator op_does_not_exist values v = not (is_present v)
matches_operator (other_operator o) values v = false

unfoldable pub matches_label_requirement : Option StringMap → LabelSelectorRequirement → Bool
matches_label_requirement labels req =
    matches_operator req.operator req.values (value_of labels req.key)

-- The loop over `MatchLabels`.
unfoldable pub matches_labels : Option StringMap → StringMap → Bool
matches_labels labels [] = true
matches_labels none ((k, v) ∷ wanted) = false
matches_labels (some m) ((k, v) ∷ wanted) =
    str_eq (text_of (lookup k m)) v && matches_labels (some m) wanted

-- `matchesLabelSelector`, for a selector that is not nil.
unfoldable pub matches_label_selector : Option StringMap → LabelSelector → Bool
matches_label_selector labels selector =
    matches_labels labels selector.match_labels
    && all (matches_label_requirement labels) selector.match_expressions

unfoldable pub is_annotation_true : Option StringMap → String → Bool
is_annotation_true none k = false
is_annotation_true (some m) k = equal_fold (text_of (lookup k m)) "true"

unfoldable pub owner_has_annotation_true : List OwnerMeta → String → Bool
owner_has_annotation_true owners k = any (λ o. is_annotation_true o.annotations k) owners

-- The parts of the text between commas, trimmed, without the empty ones.
abbrev pub named_in : String → List String
named_in val =
    if is_empty val then [] else keep (λ p. not (is_empty p)) (map trim_space (split 44 val))

unfoldable pub get_excluded_detectors : Option StringMap → List String
get_excluded_detectors annotations = elim (value_of annotations "wormsign.io/exclude-detectors") [
  | none ↦ []
  | some val ↦ named_in val
]

-- The inner loop: the names that were not seen are added.
unfoldable pub add_unseen : List String → List String → List String
add_unseen seen [] = seen
add_unseen seen (d ∷ ds) =
    add_unseen (if any (λ s. str_eq s d) seen then seen else seen ++ d ∷ []) ds

-- `getOwnerExcludedDetectors`, from the names so far: these are also the ones that were seen.
unfoldable pub owners_excluded : List String → List OwnerMeta → List String
owners_excluded seen [] = seen
owners_excluded seen (o ∷ os) =
    owners_excluded (add_unseen seen (get_excluded_detectors o.annotations)) os

unfoldable pub get_owner_excluded_detectors : List OwnerMeta → List String
unfolding owners_excluded add_unseen
get_owner_excluded_detectors owners = owners_excluded [] owners
