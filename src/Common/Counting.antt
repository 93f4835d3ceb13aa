-- ===== src/Common/Counting.antt =====
-- Lists compared as multisets: how many elements pass a test, for every test.
use Prim.Native.Nat.{ℕ, ◌+◌, ◌≤◌}
use mathlib.Core.Path.{◌≡◌, refl, ap}
use mathlib.Core.Bool.{Bool, true, false, not, ◌&&◌, ◌||◌}
use mathlib.Core.List.{List, [], ◌∷◌, ◌++◌, Perm, Permᴰ}
use mathlib.Core.Logic.{∥∥₁_elim}
use native.Mathlib.Nat.{ℕ_set}
use native.Mathlib.Omega.{arith}
use wormsign.Common.Lists.{length, keep}

abbrev pub bit : Bool → ℕ
bit true = 1
bit false = 0

module _ {ℓ} {A : Type ℓ} where
  abbrev pub count : (A → Bool) → List A → ℕ
  count p [] = 0
  count p (x ∷ xs) = bit (p x) + count p xs

  abbrev pub sum_by : (A → ℕ) → List A → ℕ
  sum_by f [] = 0
  sum_by f (x ∷ xs) = f x + sum_by f xs

  -- No test passes more often in the first list than in the second.
  abbrev pub Sub : List A → List A → Type ℓ
  Sub xs ys = (p : A → Bool) → count p xs ≤ count p ys

  pub count-append : (p : A → Bool) (xs ys : List A) → count p (xs ++ ys) ≡ count p xs + count p ys
  count-append p [] ys = omega arith
  count-append p (x ∷ xs) ys = omega (arith, count-append p xs ys)

  pub count-keep : (p t : A → Bool) (xs : List A) → count p (keep t xs) ≡ count (λ x. p x && t x) xs
  count-keep p t [] = refl
  count-keep p t (x ∷ xs) = ground (arith, count-keep p t xs)

  -- A test splits the count.
  pub count_split :
      (p t : A → Bool) (xs : List A)
      → count p xs ≡ count (λ x. p x && t x) xs + count (λ x. p x && not (t x)) xs
  count_split p t [] = omega arith
  count_split p t (x ∷ xs) = ground (arith, count_split p t xs)

  pub count_or :
      (p q : A → Bool) (xs : List A) → count (λ x. p x || q x) xs ≤ count p xs + count q xs
  count_or p q [] = omega arith
  count_or p q (x ∷ xs) = ground (arith, count_or p q xs)

  pub count_none : (xs : List A) → count (λ x. false) xs ≡ 0
  count_none [] = refl
  count_none (x ∷ xs) = omega (arith, count_none xs)

  pub count_ext : (p q : A → Bool) (xs : List A) → ((x : A) → p x ≡ q x) → count p xs ≡ count q xs
  count_ext p q [] h = refl
  count_ext p q (x ∷ xs) h = omega (arith, ap bit (h x), count_ext p q xs h)

  -- A test and its negation count every element once.
  pub count-not : (p : A → Bool) (xs : List A) → count p xs + count (λ x. not (p x)) xs ≡ length xs
  count-not p [] = omega arith
  count-not p (x ∷ xs) = ground (arith, count-not p xs)

  sum_by-permᴰ : (f : A → ℕ) {xs ys : List A} → Permᴰ xs ys → sum_by f xs ≡ sum_by f ys
  sum_by-permᴰ f Permᴰ.nil = refl
  sum_by-permᴰ f (Permᴰ.cons e p) = omega (arith, ap f e, sum_by-permᴰ f p)
  sum_by-permᴰ f (Permᴰ.swap e d) = omega (arith, ap f e, ap f d)
  sum_by-permᴰ f (Permᴰ.trans p q) = omega (arith, sum_by-permᴰ f p, sum_by-permᴰ f q)

  pub sum_by-perm : (f : A → ℕ) {xs ys : List A} → Perm xs ys → sum_by f xs ≡ sum_by f ys
  sum_by-perm f p = ∥∥₁_elim p (ℕ_set _ _) (sum_by-permᴰ f)

  pub count-sum_by : (p : A → Bool) (xs : List A) → count p xs ≡ sum_by (λ x. bit (p x)) xs
  count-sum_by p [] = refl
  count-sum_by p (x ∷ xs) = omega (arith, count-sum_by p xs)

  pub count-keep-le : (p t : A → Bool) (xs : List A) → count p (keep t xs) ≤ count p xs
  count-keep-le p t [] = omega arith
  count-keep-le p t (x ∷ xs) = ground (arith, count-keep-le p t xs)

  -- What no test keeps twice is counted once.
  pub count_disjoint :
      (p t u : A → Bool) (xs : List A)
      → ((x : A) → (t x && u x) ≡ false)
      → count p (keep t xs) + count p (keep u xs) ≤ count p xs
  count_disjoint p t u [] h = omega arith
  count_disjoint p t u (x ∷ xs) h = ground (arith, h x, count_disjoint p t u xs h)
