-- ===== src/Filter/Precedence.antt =====
-- internal/filter/engine.go: the order of the nine levels of `Evaluate`.
use wormsign.Common.{
  ℕ, ◌≡◌, ◌↔◌, ◌⊎◌, inl, inr, refl, String, Bool, true, false, not, ◌&&◌, List, [], ◌∷◌, some, All,
  Option-cases, arith,
}
use wormsign.Model.{is_empty, is_nil}
use wormsign.Filter.Types.{
  namespace_global, namespace_label, suppress_policy, namespace_annotation, resource_annotation,
  owner_annotation, policy_exclude, FilterResult, OwnerMeta, PolicyAction, exclude, LabelSelector,
  Policy, FilterInput,
}
use wormsign.Filter.Selectors.{
  contains_detector, matches_label_selector, is_annotation_true, owner_has_annotation_true,
  get_excluded_detectors, get_owner_excluded_detectors,
}
use wormsign.Filter.Engine.{
  Patterns, Engine, is_exclude, policy_applies_to_namespace, suppresses, selects, first_policy,
  excluded_for, detectors_excluded_for, not_excluded, pattern_matches,
  matches_global_namespace_exclusion, matches_namespace_label_selector, matches_owner_names,
  excludes, evaluate,
}
use wormsign.Filter.Levels.{
  Somewhere, IsFirst, first_of-IsFirst, any_iff, first_policy_iff, IsNamed, Covers, detectors_iff,
  nil_or, IsSuppressing, suppresses_iff,
}

module _ (patterns : Patterns) where
  abbrev pub IsExcluding : FilterInput → Policy → Type 0
  IsExcluding input p =
      (p.action ≡ exclude)
      × (policy_applies_to_namespace p input.namespace ≡ true)
      × Covers p input.detector_name
      × (selects p.resource_selector input ≡ true)
      × ((p.owner_names ≡ []) ⊎ (matches_owner_names patterns input.owners p.owner_names ≡ true))

  exclude_iff : (a : PolicyAction) → (is_exclude a ≡ true) ↔ (a ≡ exclude)
  exclude_iff a = ground arith

  excludes_iff :
      (input : FilterInput) (p : Policy) → (excludes patterns input p ≡ true) ↔ IsExcluding input p
  unfolding excludes
  excludes_iff input p = ground (
    arith,
    exclude_iff p.action,
    detectors_iff p input.detector_name,
    nil_or p.owner_names (matches_owner_names patterns input.owners p.owner_names),
  )

  -- The selector of the configuration, if it demands anything, matches the labels of the namespace.
  abbrev pub IsLabelExcluded : Engine patterns → FilterInput → Type 0
  IsLabelExcluded e input =
      (s : LabelSelector) × (e.global_config.exclude_namespace_selector ≡ some s)
      × (is_nil s.match_labels && is_nil s.match_expressions ≡ false)
      × (matches_label_selector input.namespace.labels s ≡ true)

  label_iff :
      (e : Engine patterns) (input : FilterInput)
      → (matches_namespace_label_selector patterns e input ≡ true) ↔ IsLabelExcluded e input
  unfolding matches_namespace_label_selector
  label_iff e input = elim (Option-cases e.global_config.exclude_namespace_selector) [
    | inl absent ↦
        (λ h. ground (arith, absent), λ (s, at, demands, fits). ground (arith, absent, at))
    | inr (s, at) ↦ (
      λ h. (s, at, ground (arith, at), ground (arith, at)),
      λ (s', at', demands, fits). ground (arith, at', demands, fits),
    )
  ]

  named_detector :
      (ds : List String) (d : String)
      → (not (is_nil ds) && contains_detector ds d ≡ true) ↔ (contains_detector ds d ≡ true)
  unfolding contains_detector
  named_detector [] d = ground arith
  named_detector (x ∷ ds) d = ground arith

  -- The nine levels, in order: when each applies, and its result.
  abbrev pub levels : Engine patterns → ℕ → FilterInput → List (Type 0 × FilterResult)
  levels e now input =
      let detectors = get_excluded_detectors input.resource.annotations in
      let owner_detectors = get_owner_excluded_detectors input.owners in
      (
        Somewhere (λ p. pattern_matches patterns input.namespace.name p ≡ true) e.compiled_patterns,
        excluded_for namespace_global,
      )
      ∷ (IsLabelExcluded e input, excluded_for namespace_label)
      ∷ (Somewhere (IsSuppressing now input) e.policies, excluded_for suppress_policy)
      ∷ (
        is_annotation_true input.namespace.annotations "wormsign.io/suppress" ≡ true,
        excluded_for namespace_annotation,
      )
      ∷ (
        is_annotation_true input.resource.annotations "wormsign.io/exclude" ≡ true,
        excluded_for resource_annotation,
      )
      ∷ (
        Somewhere (λ (o : OwnerMeta). is_annotation_true o.annotations "wormsign.io/exclude" ≡ true)
            input.owners,
        excluded_for owner_annotation,
      )
      ∷ (
        contains_detector detectors input.detector_name ≡ true,
        detectors_excluded_for resource_annotation detectors,
      )
      ∷ (
        contains_detector owner_detectors input.detector_name ≡ true,
        detectors_excluded_for owner_annotation owner_detectors,
      )
      ∷ (Somewhere (IsExcluding input) e.policies, excluded_for policy_exclude)
      ∷ []

  same : {A : Type 0} (t : A → Bool) (x : A) → (t x ≡ true) ↔ (t x ≡ true)
  same t x = ground arith

  -- `Evaluate` gives the result of the first of the nine levels that applies, and excludes nothing where
  -- none applies, if every policy has a name.
  pub evaluate-IsFirst :
      (e : Engine patterns) (now : ℕ) (input : FilterInput)
      → All IsNamed e.policies
      → IsFirst (levels e now input) not_excluded (evaluate patterns e now input)
  unfolding evaluate matches_global_namespace_exclusion owner_has_annotation_true
  evaluate-IsFirst e now input named =
      let detectors = get_excluded_detectors input.resource.annotations in
      let owner_detectors = get_owner_excluded_detectors input.owners in
      let excluded_owner =
        λ (o : OwnerMeta). is_annotation_true o.annotations "wormsign.io/exclude" in
      first_of-IsFirst
        ((
          matches_global_namespace_exclusion patterns e input.namespace.name,
          excluded_for namespace_global,
        )
          ∷ (matches_namespace_label_selector patterns e input, excluded_for namespace_label)
          ∷ (
            not (is_empty (first_policy (suppresses now input) e.policies)),
            excluded_for suppress_policy,
          )
          ∷ (
            is_annotation_true input.namespace.annotations "wormsign.io/suppress",
            excluded_for namespace_annotation,
          )
          ∷ (
            is_annotation_true input.resource.annotations "wormsign.io/exclude",
            excluded_for resource_annotation,
          )
          ∷ (
            owner_has_annotation_true input.owners "wormsign.io/exclude",
            excluded_for owner_annotation,
          )
          ∷ (
            not (is_nil detectors) && contains_detector detectors input.detector_name,
            detectors_excluded_for resource_annotation detectors,
          )
          ∷ (
            not (is_nil owner_detectors) && contains_detector owner_detectors input.detector_name,
            detectors_excluded_for owner_annotation owner_detectors,
          )
          ∷ (
            not (is_empty (first_policy (excludes patterns input) e.policies)),
            excluded_for policy_exclude,
          )
          ∷ [])
        (levels e now input) not_excluded
        (
          any_iff (pattern_matches patterns input.namespace.name)
              (λ p. pattern_matches patterns input.namespace.name p ≡ true) e.compiled_patterns
              (same (pattern_matches patterns input.namespace.name)),
          refl,
          (
            label_iff e input,
            refl,
            (
              first_policy_iff (suppresses now input) (IsSuppressing now input) e.policies named
                  (suppresses_iff now input),
              refl,
              (
                same (λ b. b)
                    (is_annotation_true input.namespace.annotations "wormsign.io/suppress"),
                refl,
                (
                  same (λ b. b)
                      (is_annotation_true input.resource.annotations "wormsign.io/exclude"),
                  refl,
                  (
                    any_iff excluded_owner (λ o. excluded_owner o ≡ true) input.owners
                        (same excluded_owner),
                    refl,
                    (
                      named_detector detectors input.detector_name,
                      refl,
                      (
                        named_detector owner_detectors input.detector_name,
                        refl,
                        (
                          first_policy_iff (excludes patterns input) (IsExcluding input) e.policies
                              named (excludes_iff input),
                          refl,
                          tt,
                        ),
                      ),
                    ),
                  ),
                ),
              ),
            ),
          ),
        )
