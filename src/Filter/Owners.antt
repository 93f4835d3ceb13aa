-- ===== src/Filter/Owners.antt =====
-- internal/filter/engine.go: the detectors that the owners of a resource exclude.
use wormsign.Common.{
  ◌≤◌, ◌≡◌, refl, ap, String, Bool, false, ◌||◌, List, [], ◌∷◌, ◌++◌, str_eq, eq_iff, any,
  if◌then◌else◌, Bool-cases, inl, inr, arith,
}
use wormsign.Common.Counting.{count, count-append}
use wormsign.Filter.Types.{OwnerMeta}
use wormsign.Filter.Selectors.{
  contains_detector, get_excluded_detectors, add_unseen, owners_excluded,
  get_owner_excluded_detectors,
}

-- Each name occurs at most once.
abbrev pub IsDistinct : List String → Type 0
IsDistinct ds = (d : String) → count (λ x. str_eq x d) ds ≤ 1

abbrev seen_in : List String → String → Bool
seen_in ds d = any (λ x. str_eq x d) ds

seen_in-append :
    (xs ys : List String) (d : String) → seen_in (xs ++ ys) d ≡ seen_in xs d || seen_in ys d
seen_in-append [] ys d = refl
seen_in-append (x ∷ xs) ys d = ground (arith, seen_in-append xs ys d)

unseen_count :
    (xs : List String) (d : String) → seen_in xs d ≡ false → count (λ x. str_eq x d) xs ≡ 0
unseen_count [] d h = refl
unseen_count (x ∷ xs) d h = ground (arith, unseen_count xs d)

seen_in-add :
    (xs : List String) (y d : String)
    → seen_in (if seen_in xs y then xs else xs ++ y ∷ []) d ≡ seen_in xs d || str_eq y d
seen_in-add xs y d = elim (Bool-cases (str_eq y d)) [
  | inl same ↦ ground (arith, seen_in-append xs (y ∷ []) d, ap (seen_in xs) ((eq_iff y d).0 same))
  | inr other ↦ ground (arith, seen_in-append xs (y ∷ []) d)
]

add-IsDistinct :
    (xs : List String) (y : String)
    → IsDistinct xs
    → IsDistinct (if seen_in xs y then xs else xs ++ y ∷ [])
add-IsDistinct xs y distinct d = elim (Bool-cases (str_eq y d)) [
  | inl same ↦ ground (
    arith,
    distinct d,
    count-append (λ x. str_eq x d) xs (y ∷ []),
    ap (seen_in xs) ((eq_iff y d).0 same),
    unseen_count xs d,
  )
  | inr other ↦ ground (arith, distinct d, count-append (λ x. str_eq x d) xs (y ∷ []))
]

seen_in-add_unseen :
    (xs ys : List String) (d : String) → seen_in (add_unseen xs ys) d ≡ seen_in xs d || seen_in ys d
unfolding add_unseen
seen_in-add_unseen xs [] d = ground arith
seen_in-add_unseen xs (y ∷ ys) d =
    ground (
      arith,
      seen_in-add_unseen (if seen_in xs y then xs else xs ++ y ∷ []) ys d,
      seen_in-add xs y d,
    )

add_unseen-IsDistinct : (xs ys : List String) → IsDistinct xs → IsDistinct (add_unseen xs ys)
unfolding add_unseen
add_unseen-IsDistinct xs [] distinct = distinct
add_unseen-IsDistinct xs (y ∷ ys) distinct =
    add_unseen-IsDistinct (if seen_in xs y then xs else xs ++ y ∷ []) ys
      (add-IsDistinct xs y distinct)

abbrev pub excludes_detector : String → OwnerMeta → Bool
excludes_detector d o = contains_detector (get_excluded_detectors o.annotations) d

owners_excluded-union :
    (seen : List String) (owners : List OwnerMeta) (d : String)
    → seen_in (owners_excluded seen owners) d ≡ seen_in seen d || any (excludes_detector d) owners
unfolding owners_excluded contains_detector
owners_excluded-union seen [] d = ground arith
owners_excluded-union seen (o ∷ os) d =
    let names = get_excluded_detectors o.annotations in
    ground
      (arith, owners_excluded-union (add_unseen seen names) os d, seen_in-add_unseen seen names d)

owners_excluded-IsDistinct :
    (seen : List String) (owners : List OwnerMeta)
    → IsDistinct seen
    → IsDistinct (owners_excluded seen owners)
unfolding owners_excluded
owners_excluded-IsDistinct seen [] distinct = distinct
owners_excluded-IsDistinct seen (o ∷ os) distinct =
    owners_excluded-IsDistinct (add_unseen seen (get_excluded_detectors o.annotations)) os
      (add_unseen-IsDistinct seen (get_excluded_detectors o.annotations) distinct)

-- `getOwnerExcludedDetectors` returns the union of what the owners exclude: a detector is in the result
-- exactly if some owner excludes it, and no name is there twice.
pub get_owner_excluded_detectors-union :
    (owners : List OwnerMeta)
    → ((d : String)
        → contains_detector (get_owner_excluded_detectors owners) d
          ≡ any (excludes_detector d) owners)
      × IsDistinct (get_owner_excluded_detectors owners)
unfolding get_owner_excluded_detectors contains_detector
get_owner_excluded_detectors-union owners =
    (owners_excluded-union [] owners, owners_excluded-IsDistinct [] owners (λ d. omega arith))
