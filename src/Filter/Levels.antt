-- ===== src/Filter/Levels.antt =====
-- internal/filter/engine.go: the nine levels of `Evaluate`, described one by one.
use wormsign.Common.{
  ℕ, ◌≤◌, ◌≡◌, ◌↔◌, ◌⊎◌, inl, inr, refl, String, Bool, true, false, not, ◌||◌, List, [], ◌∷◌,
  Option, none, some, any, All, if◌then◌else◌, arith,
}
use wormsign.Model.{is_empty, is_nil}
use wormsign.Filter.Types.{
  FilterResult, PolicyAction, suppress, PolicySchedule, Policy, FilterInput,
}
use wormsign.Filter.Selectors.{contains_detector}
use wormsign.Filter.Engine.{
  is_suppress, is_active, policy_applies_to_namespace, covers_detector, suppresses, first_policy,
}

-- Some element has the property.
abbrev pub Somewhere : {A : Type 0} → (A → Type 0) → List A → Type 0
Somewhere P [] = ⊥
Somewhere P (x ∷ xs) = P x ⊎ Somewhere P xs

-- The result is that of the first level that applies, and the last resort if none does.
abbrev pub IsFirst : List (Type 0 × FilterResult) → FilterResult → FilterResult → Type 0
IsFirst [] last r = r ≡ last
IsFirst ((applies, x) ∷ levels) last r = (applies × (r ≡ x)) ⊎ ((¬ applies) × IsFirst levels last r)

-- What a chain of tests gives.
abbrev pub first_of : List (Bool × FilterResult) → FilterResult → FilterResult
first_of [] last = last
first_of ((b, x) ∷ tests) last = if b then x else first_of tests last

-- Each test decides whether its level applies.
abbrev pub Decides : List (Bool × FilterResult) → List (Type 0 × FilterResult) → Type 0
Decides [] [] = Unit
Decides [] (level ∷ levels) = ⊥
Decides (test ∷ tests) [] = ⊥
Decides ((b, x) ∷ tests) ((applies, y) ∷ levels) =
    ((b ≡ true) ↔ applies) × (x ≡ y) × Decides tests levels

false_is_true : false ≡ true → ⊥
false_is_true h = ground arith

pub first_of-IsFirst :
    (tests : List (Bool × FilterResult)) (levels : List (Type 0 × FilterResult))
    (last : FilterResult)
    → Decides tests levels
    → IsFirst levels last (first_of tests last)
first_of-IsFirst [] [] last d = refl
first_of-IsFirst [] (level ∷ levels) last d = elim d [ ]
first_of-IsFirst ((b, x) ∷ tests) [] last d = elim d [ ]
first_of-IsFirst ((true, x) ∷ tests) ((applies, y) ∷ levels) last (decides, same, rest) =
    inl (decides.0 refl, same)
first_of-IsFirst ((false, x) ∷ tests) ((applies, y) ∷ levels) last (decides, same, rest) =
    inr ((λ h. false_is_true (decides.1 h)), first_of-IsFirst tests levels last rest)

pub any_iff :
    {A : Type 0} (t : A → Bool) (P : A → Type 0) (xs : List A)
    → ((x : A) → (t x ≡ true) ↔ P x)
    → (any t xs ≡ true) ↔ Somewhere P xs
any_iff t P [] each = ground arith
any_iff t P (x ∷ xs) each = ground (arith, each x, any_iff t P xs each)

-- The name of a policy is not empty.
abbrev pub IsNamed : Policy → Type 0
IsNamed p = is_empty p.name ≡ false

pub first_policy_iff :
    (t : Policy → Bool) (P : Policy → Type 0) (ps : List Policy)
    → All IsNamed ps
    → ((p : Policy) → (t p ≡ true) ↔ P p)
    → (not (is_empty (first_policy t ps)) ≡ true) ↔ Somewhere P ps
unfolding first_policy
first_policy_iff t P [] named each = ground arith
first_policy_iff t P (p ∷ ps) (name, named) each =
    ground (arith, name, each p, first_policy_iff t P ps named each)

abbrev pub IsActive : Option PolicySchedule → ℕ → Type 0
IsActive none now = Unit
IsActive (some s) now = (s.start ≤ now) × (now ≤ s.end)

-- A policy without detectors covers all of them.
abbrev pub Covers : Policy → String → Type 0
Covers p detector = (p.detectors ≡ []) ⊎ (contains_detector p.detectors detector ≡ true)

abbrev pub IsSuppressing : ℕ → FilterInput → Policy → Type 0
IsSuppressing now input p =
    (p.action ≡ suppress)
    × IsActive p.schedule now
    × (policy_applies_to_namespace p input.namespace ≡ true)
    × Covers p input.detector_name

pub nil_or : (ds : List String) (b : Bool) → (is_nil ds || b ≡ true) ↔ ((ds ≡ []) ⊎ (b ≡ true))
nil_or [] b = ground arith
nil_or (d ∷ ds) b = ground arith

pub detectors_iff : (p : Policy) (d : String) → (covers_detector p d ≡ true) ↔ Covers p d
detectors_iff p d = nil_or p.detectors (contains_detector p.detectors d)

schedule_iff : (s : Option PolicySchedule) (now : ℕ) → (is_active s now ≡ true) ↔ IsActive s now
unfolding is_active
schedule_iff none now = ground arith
schedule_iff (some s) now = ground arith

suppress_iff : (a : PolicyAction) → (is_suppress a ≡ true) ↔ (a ≡ suppress)
suppress_iff a = ground arith

pub suppresses_iff :
    (now : ℕ) (input : FilterInput) (p : Policy)
    → (suppresses now input p ≡ true) ↔ IsSuppressing now input p
unfolding suppresses
suppresses_iff now input p =
    ground (
      arith,
      suppress_iff p.action,
      schedule_iff p.schedule now,
      detectors_iff p input.detector_name,
    )
