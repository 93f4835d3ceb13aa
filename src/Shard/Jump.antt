-- ===== src/Shard/Jump.antt =====
-- internal/shard/hasher.go: the jumps of `JumpHash` go forwards.
use native.Mathlib.Nat.{le-div_iff_mul-le, two-pow-succ, mul-le-mul_left, mul-le-mul_right}
use wormsign.Common.{
  ℕ, zero, suc, ◌+◌, ◌-◌, ◌*◌, ◌/◌, ◌^◌, ◌≤◌, ◌<◌, ◌≡◌, refl, sym, ap, subst, ◌∙◌, ◌⊎◌, inl, inr,
  ltb, Bool-cases, arith,
}
use wormsign.Shard.Doubles.{
  round_even, fit_scale, divide, excess_bits, round_53, multiply_truncated,
}
use wormsign.Shard.Hasher.{next_jump}

le_divide : (a n m : ℕ) → 1 ≤ m → a * m ≤ n → a ≤ n / m
le_divide a n m h k = (le-div_iff_mul-le h).1 k

round_even-le : (n m : ℕ) → n / m ≤ round_even n m
unfolding round_even
round_even-le n m = ground arith

pow_positive : (n : ℕ) → 1 ≤ 2 ^ n
pow_positive zero = omega arith
pow_positive (suc n) = omega (arith, pow_positive n, two-pow-succ n)

mul_double : (a b : ℕ) → (a + a) * b ≡ a * b + a * b
mul_double a b = grind arith

pow_add : (m n : ℕ) → 2 ^ (m + n) ≡ 2 ^ m * 2 ^ n
pow_add zero n =
    let same : zero + n ≡ n = omega arith in
    let once : 2 ^ n ≡ 1 * 2 ^ n = omega arith in ap (λ k. 2 ^ k) same ∙ once
pow_add (suc m) n =
    let same : suc m + n ≡ suc (m + n) = omega arith in
    let twice : 2 ^ suc (m + n) ≡ 2 ^ suc m * 2 ^ n = omega (
      arith,
      two-pow-succ (m + n),
      pow_add m n,
      ap (λ k. k * 2 ^ n) (two-pow-succ m),
      mul_double (2 ^ m) (2 ^ n),
    ) in
    ap (λ k. 2 ^ k) same ∙ twice

-- The mantissa of a quotient that is at least 1 is at least the scale's power.
divide-least : (n m : ℕ) → 1 ≤ m → m ≤ n → 2 ^ (divide n m).scale ≤ (divide n m).mantissa
unfolding divide
divide-least n m h k =
    let power = 2 ^ fit_scale 52 n m in
    let whole = le_divide power (n * power) m h (grind (arith, mul-le-mul_left power k)) in
    omega (arith, whole, round_even-le (n * power) m)

excess_bits-least : (s p : ℕ) → (excess_bits s p ≡ 0) ⊎ (2 ^ (52 + excess_bits s p) ≤ p)
unfolding excess_bits
excess_bits-least zero p = inl refl
excess_bits-least (suc s) p = ground (arith, excess_bits-least s p)

le_or_lt : (a b : ℕ) → ((d : ℕ) × (a ≡ d + b)) ⊎ ((d : ℕ) × (b ≡ suc d + a))
le_or_lt a b = elim (Bool-cases (ltb a b)) [
  | inl lt ↦ inr (b - suc a, ground arith)
  | inr ge ↦ inl (a - b, ground arith)
]

mul_shift : (x a b : ℕ) → x * (a * b) ≡ x * a * b
mul_shift x a b = omega arith

-- A rounding that drops no more bits than the power has.
round_finer : (x d s p q : ℕ) → x * 2 ^ (d + s) ≤ p → p / 2 ^ s ≤ q → x * 2 ^ (d + s) ≤ q * 2 ^ s
round_finer x d s p q below above =
    let at = ap (λ k. x * k) (pow_add d s) ∙ mul_shift x (2 ^ d) (2 ^ s) in
    let kept = le_divide (x * 2 ^ d) p (2 ^ s) (pow_positive s) (omega (arith, at)) in
    let least : x * 2 ^ d ≤ q = omega (arith, kept) in
    omega (arith, at, mul-le-mul_right (2 ^ s) least)

-- A rounding that drops more bits than the power has: what is left has 53 bits.
round_coarser :
    (x d e p q : ℕ)
    → x ≤ 2 ^ 53
    → 2 ^ (52 + (suc d + e)) ≤ p
    → p / 2 ^ (suc d + e) ≤ q
    → x * 2 ^ e ≤ q * 2 ^ (suc d + e)
round_coarser x d e p q short excess above =
    let s = suc d + e in
    let full = le_divide (2 ^ 52) p (2 ^ s) (pow_positive s) (omega (arith, pow_add 52 s)) in
    let large : 2 ^ 52 ≤ q = omega (arith, full) in
    let wide : 2 ≤ 2 ^ suc d = omega (arith, two-pow-succ d, pow_positive d) in
    omega (
      arith,
      mul-le-mul_right (2 ^ e) short,
      mul-le-mul_right (2 ^ e) wide,
      pow_add (suc d) e,
      mul-le-mul_right (2 ^ s) large,
    )

-- An integer of at most 53 bits, times a power of 2, is no more than what a larger one rounds to.
round_above :
    (x e s p q : ℕ)
    → x ≤ 2 ^ 53
    → x * 2 ^ e ≤ p
    → (s ≡ 0) ⊎ (2 ^ (52 + s) ≤ p)
    → p / 2 ^ s ≤ q
    → x * 2 ^ e ≤ q * 2 ^ s
round_above x e s p q short below excess above = elim (le_or_lt e s) [
  | inl (d, at) ↦
      subst (λ k. x * 2 ^ k ≤ q * 2 ^ s) (sym at)
        (round_finer x d s p q (subst (λ k. x * 2 ^ k ≤ p) at below) above)
  | inr (d, at) ↦ elim excess [
    | inl short_s ↦ omega (arith, short_s, at)
    | inr long ↦
        subst (λ k. x * 2 ^ e ≤ q * 2 ^ k) (sym at)
          (round_coarser x d e p q short (subst (λ k. 2 ^ (52 + k) ≤ p) at long)
            (subst (λ k. p / 2 ^ k ≤ q) at above))
  ]
]

round_53-least : (x e p : ℕ) → x ≤ 2 ^ 53 → x * 2 ^ e ≤ p → x * 2 ^ e ≤ round_53 p
unfolding round_53
round_53-least x e p short below =
    let s = excess_bits 64 p in
    round_above x e s p (round_even p (2 ^ s)) short below (excess_bits-least 64 p)
      (round_even-le p (2 ^ s))

pub next_jump-above : (b key : ℕ) → key < 2 ^ 64 → b < 2 ^ 53 → b < next_jump b key
unfolding next_jump multiply_truncated
next_jump-above b key word short =
    let d = key / 2 ^ 33 + 1 in
    let factor = divide (2 ^ 31) d in
    let small : d ≤ 2 ^ 31 = omega arith in
    let least : 2 ^ factor.scale ≤ factor.mantissa = divide-least (2 ^ 31) d (omega arith) small in
    let grown : (b + 1) * 2 ^ factor.scale ≤ (b + 1) * factor.mantissa =
      mul-le-mul_left (b + 1) least in
    let rounded =
      round_53-least (b + 1) factor.scale ((b + 1) * factor.mantissa) (omega arith) grown in
    let above =
      le_divide (b + 1) (round_53 ((b + 1) * factor.mantissa)) (2 ^ factor.scale)
        (pow_positive factor.scale) rounded in
    omega (arith, above)
