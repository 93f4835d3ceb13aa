-- ===== src/Common/Removal.antt =====
-- Taking a group of elements out of a list by their identifiers.
use wormsign.Common.Lists.{length, any, keep}
use wormsign.Common.Counting.{count, Sub, count-keep, count_split, count_or, count_none, count-not}
use Prim.Native.Nat.{◌+◌, ◌≤◌}
use Prim.Native.String.{String}
use mathlib.Core.Path.{◌≡◌, refl}
use mathlib.Core.Bool.{Bool, true, not, ◌&&◌}
use mathlib.Core.List.{List, [], ◌∷◌, map}
use native.Mathlib.Omega.{arith}
use text.Mathlib.Text.{◌==◌ as str_eq}
use text.Mathlib.TextEquality.{eq_iff}

module _ {A : Type 0} (id_of : A → String) where
  abbrev pub has_id : String → A → Bool
  has_id i x = str_eq i (id_of x)

  -- Each identifier occurs once at most.
  abbrev pub IsDistinct : List A → Type 0
  IsDistinct xs = (i : String) → count (has_id i) xs ≤ 1

  -- The identifier of the element is one of the group's.
  abbrev pub within : List A → A → Bool
  within g x = any (λ j. str_eq j (id_of x)) (map id_of g)

  count-within_le : (g xs : List A) → IsDistinct xs → count (within g) xs ≤ length g
  count-within_le [] xs d = omega (arith, count_none xs)
  count-within_le (y ∷ g) xs d =
      omega (arith, count_or (has_id (id_of y)) (within g) xs, d (id_of y), count-within_le g xs d)

  -- Every element of a part of the group is within it.
  count-within_part :
      (p : A → Bool) (g part : List A)
      → ((i : String)
          → any (λ j. str_eq j i) (map id_of part) ≡ true
          → any (λ j. str_eq j i) (map id_of g) ≡ true)
      → count p part ≡ count (λ x. p x && within g x) part
  count-within_part p g [] h = refl
  count-within_part p g (x ∷ part) h =
      let here : within g x ≡ true = h (id_of x) (ground (arith, eq_iff (id_of x) (id_of x))) in
      let rest = count-within_part p g part (λ i e. h i (ground (arith, e))) in
      rw here (ground (arith, rest))

  count-within_self : (p : A → Bool) (g : List A) → count p g ≡ count (λ x. p x && within g x) g
  count-within_self p g = count-within_part p g g (λ i e. e)

  and_comm_count :
      (p q : A → Bool) (xs : List A) → count (λ x. p x && q x) xs ≡ count (λ x. q x && p x) xs
  and_comm_count p q [] = refl
  and_comm_count p q (x ∷ xs) = ground (arith, and_comm_count p q xs)

  -- In a list with distinct identifiers, the elements within a part of it are that part.
  count-within :
      (p : A → Bool) (g xs : List A)
      → IsDistinct xs
      → Sub g xs
      → count (λ x. p x && within g x) xs ≡ count p g
  count-within p g xs d s = omega (
    arith,
    count-within_self p g,
    s (λ x. p x && within g x),
    count-within_self (λ x. not (p x)) g,
    s (λ x. not (p x) && within g x),
    count-not p g,
    count-within_le g xs d,
    count_split (within g) p xs,
    and_comm_count p (within g) xs,
    and_comm_count (λ x. not (p x)) (within g) xs,
  )

  -- What is left when a part is taken out by its identifiers, and the part, make up the list.
  pub count_removed :
      (p : A → Bool) (g xs : List A)
      → IsDistinct xs
      → Sub g xs
      → count p xs ≡ count p g + count p (keep (λ x. not (within g x)) xs)
  count_removed p g xs d s = omega (
    arith,
    count-within p g xs d s,
    count_split p (within g) xs,
    count-keep p (λ x. not (within g x)) xs,
  )
