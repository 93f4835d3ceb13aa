-- ===== src/Filter/Engine.antt =====
-- internal/filter/engine.go: the engine. The regular expressions of `regexp`, and the file-name patterns
-- of `path/filepath`, are parameters. Logging is left out.
use Prim.Native.Char.{code}
use Prim.Native.String.{[] as no_char, ◌∷◌ as ◌then_char◌}
use wormsign.Common.{
  ◌==◌, ℕ, String, Bool, true, false, not, ◌&&◌, ◌||◌, List, [], ◌∷◌, Option, none, some, str_eq,
  any, ltb, if◌then◌else◌, Result, ok, err,
}
use wormsign.Model.{is_empty, is_nil}
use wormsign.Common.Text.{append, has_prefix, has_suffix}
use wormsign.Filter.Types.{
  FilterReason, namespace_global, namespace_label, suppress_policy, namespace_annotation,
  resource_annotation, owner_annotation, policy_exclude, FilterResult, NamespaceMeta, OwnerMeta,
  PolicyAction, exclude, suppress, LabelSelector, PolicySchedule, Policy, FilterInput,
  GlobalFilterConfig,
}
use wormsign.Filter.Selectors.{
  contains_detector, matches_label_selector, is_annotation_true, owner_has_annotation_true,
  get_excluded_detectors, get_owner_excluded_detectors,
}

-- `hasRegexMeta`: one of . * + ? ( ) [ ] { } ^ $ | \
abbrev is_meta : ℕ → Bool
is_meta c =
    c == 46
    || (c == 42
        || (c == 43
            || (c == 63
                || (c == 40
                    || (c == 41
                        || (c == 91
                            || (c == 93
                                || (c == 123
                                    || (c == 125
                                        || (c == 94 || (c == 36 || (c == 124 || c == 92))))))))))))

unfoldable pub has_regex_meta : String → Bool
has_regex_meta no_char = false
has_regex_meta (◌then_char◌ c s) = is_meta (code c) || has_regex_meta s

-- `compile` is `none` for an expression with an error, and `glob pattern name` for a malformed pattern.
pub record Patterns : Type 1 where
  pub Regexp : Type 0
  pub compile : String → Option Regexp
  pub match_string : Regexp → String → Bool
  pub glob : String → String → Option Bool

abbrev pub is_exclude : PolicyAction → Bool
is_exclude exclude = true
is_exclude _ = false

abbrev pub is_suppress : PolicyAction → Bool
is_suppress suppress = true
is_suppress _ = false

-- No schedule is always active; the two ends of a schedule belong to it.
unfoldable pub is_active : Option PolicySchedule → ℕ → Bool
is_active none now = true
is_active (some s) now = not (ltb now s.start || ltb s.end now)

unfoldable pub policy_applies_to_namespace : Policy → NamespaceMeta → Bool
policy_applies_to_namespace p ns = elim p.namespace_selector [
  | some selector ↦ matches_label_selector ns.labels selector
  | none ↦ str_eq p.namespace ns.name
]

abbrev pub covers_detector : Policy → String → Bool
covers_detector p detector = is_nil p.detectors || contains_detector p.detectors detector

-- The tests that a policy passes in the loops of `matchesSuppressPolicy` and `matchesExcludePolicy`.
unfoldable pub suppresses : ℕ → FilterInput → Policy → Bool
suppresses now input p =
    is_suppress p.action
    && (is_active p.schedule now
        && (policy_applies_to_namespace p input.namespace && covers_detector p input.detector_name))

abbrev pub selects : Option LabelSelector → FilterInput → Bool
selects none input = true
selects (some selector) input = matches_label_selector input.resource.labels selector

-- The name of the first policy that passes, or the empty text.
unfoldable pub first_policy : (Policy → Bool) → List Policy → String
first_policy passes [] = ""
first_policy passes (p ∷ ps) =
    let rest = first_policy passes ps in if passes p then p.name else rest

abbrev pub excluded_for : FilterReason → FilterResult
excluded_for r = record {
  excluded = true;
  reason = some r;
  detector_excluded = false;
  excluded_detectors = [];
}

abbrev pub detectors_excluded_for : FilterReason → List String → FilterResult
detectors_excluded_for r detectors = record {
  excluded = true;
  reason = some r;
  detector_excluded = true;
  excluded_detectors = detectors;
}

abbrev pub not_excluded : FilterResult
not_excluded = record {
  excluded = false;
  reason = none;
  detector_excluded = false;
  excluded_detectors = [];
}

module _ (patterns : Patterns) where
  pub data NamespacePattern : Type 0 where
    exactly : String → NamespacePattern
    regex : String → patterns.Regexp → NamespacePattern

  pub record Engine : Type 0 where
    pub global_config : GlobalFilterConfig
    pub compiled_patterns : List NamespacePattern
    pub policies : List Policy

  -- The expression with `^` in front and `$` behind, unless it has them.
  unfoldable pub anchor : String → String
  anchor p =
      let front = if has_prefix 94 p then p else append "^" p in
      if has_suffix 36 front then front else append front "$"

  -- The error is the pattern that does not compile.
  unfoldable pub compile_namespace_patterns : List String → Result String (List NamespacePattern)
  unfolding anchor
  compile_namespace_patterns [] = ok []
  compile_namespace_patterns (p ∷ ps) =
      let rest = compile_namespace_patterns ps in
      if is_empty p
      then rest
      else if has_regex_meta p
      then elim (patterns.compile (anchor p)) [
        | none ↦ err p
        | some re ↦ elim rest [ ok r ↦ ok (regex p re ∷ r) | err e ↦ err e ]
      ]
      else elim rest [ ok r ↦ ok (exactly p ∷ r) | err e ↦ err e ]

  unfoldable pub new_engine : GlobalFilterConfig → Result String Engine
  unfolding compile_namespace_patterns
  new_engine config = elim (compile_namespace_patterns config.exclude_namespaces) [
    | err e ↦ err e
    | ok compiled ↦
        ok (record { global_config = config; compiled_patterns = compiled; policies = [] })
  ]

  unfoldable pub set_policies : Engine → List Policy → Engine
  set_policies e policies = record e { policies = policies }

  unfoldable pub pattern_matches : String → NamespacePattern → Bool
  pattern_matches namespace (exactly raw) = str_eq raw namespace
  pattern_matches namespace (regex raw re) = patterns.match_string re namespace

  unfoldable pub matches_global_namespace_exclusion : Engine → String → Bool
  matches_global_namespace_exclusion e namespace =
      any (pattern_matches namespace) e.compiled_patterns

  abbrev pub matches_nonempty : FilterInput → LabelSelector → Bool
  matches_nonempty input s =
      if is_nil s.match_labels && is_nil s.match_expressions
      then false
      else matches_label_selector input.namespace.labels s

  unfoldable pub matches_namespace_label_selector : Engine → FilterInput → Bool
  matches_namespace_label_selector e input = elim e.global_config.exclude_namespace_selector [
    | none ↦ false
    | some s ↦ matches_nonempty input s
  ]

  abbrev pub glob_matches : String → String → Bool
  glob_matches name pattern = elim (patterns.glob pattern name) [ none ↦ false | some b ↦ b ]

  unfoldable pub matches_owner_names : List OwnerMeta → List String → Bool
  matches_owner_names owners names = any (λ o. any (glob_matches o.name) names) owners

  unfoldable pub excludes : FilterInput → Policy → Bool
  excludes input p =
      is_exclude p.action
      && (policy_applies_to_namespace p input.namespace
          && (covers_detector p input.detector_name
              && (selects p.resource_selector input
                  && (is_nil p.owner_names || matches_owner_names input.owners p.owner_names))))

  -- The policies that pass have a name: the empty one stands for none.
  unfoldable pub evaluate : Engine → ℕ → FilterInput → FilterResult
  evaluate e now input =
      let detectors = get_excluded_detectors input.resource.annotations in
      let owner_detectors = get_owner_excluded_detectors input.owners in
      if matches_global_namespace_exclusion e input.namespace.name
      then excluded_for namespace_global
      else if matches_namespace_label_selector e input
      then excluded_for namespace_label
      else if not (is_empty (first_policy (suppresses now input) e.policies))
      then excluded_for suppress_policy
      else if is_annotation_true input.namespace.annotations "wormsign.io/suppress"
      then excluded_for namespace_annotation
      else if is_annotation_true input.resource.annotations "wormsign.io/exclude"
      then excluded_for resource_annotation
      else if owner_has_annotation_true input.owners "wormsign.io/exclude"
      then excluded_for owner_annotation
      else if not (is_nil detectors) && contains_detector detectors input.detector_name
      then detectors_excluded_for resource_annotation detectors
      else if not (is_nil owner_detectors) && contains_detector owner_detectors input.detector_name
      then detectors_excluded_for owner_annotation owner_detectors
      else if not (is_empty (first_policy (excludes input) e.policies))
      then excluded_for policy_exclude
      else not_excluded
