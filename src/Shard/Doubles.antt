-- ===== src/Shard/Doubles.antt =====
-- The arithmetic of Go's `float64` that `JumpHash` in internal/shard/hasher.go uses: a division and a
-- product of positive numbers, each rounded to 53 bits, ties to even, and a conversion to an integer.
use wormsign.Common.{ℕ, zero, suc, ◌+◌, ◌*◌, ◌/◌, ◌%◌, ◌^◌, ltb, if◌then◌else◌}

-- n / m, rounded to an integer.
unfoldable pub round_even : ℕ → ℕ → ℕ
round_even n m =
    let q = n / m in
    let r = n % m in if ltb (2 * r) m then q else if ltb m (2 * r) then q + 1 else q + q % 2

-- The largest scale, from a bound on, at which n / m has at most 53 bits before the point.
unfoldable pub fit_scale : ℕ → ℕ → ℕ → ℕ
fit_scale zero n m = 0
fit_scale (suc e) n m =
    let rest = fit_scale e n m in if ltb (n * 2 ^ suc e) (2 ^ 53 * m) then suc e else rest

-- A double: `mantissa / 2 ^ scale`.
pub record Double : Type 0 where
  pub mantissa : ℕ
  pub scale : ℕ

-- The double nearest to n / m, for 1 ≤ n / m.
unfoldable pub divide : ℕ → ℕ → Double
divide n m = let e = fit_scale 52 n m in record { mantissa = round_even (n * 2 ^ e) m; scale = e }

-- By how many bits an integer is longer than 53 bits, up to a bound.
unfoldable pub excess_bits : ℕ → ℕ → ℕ
excess_bits zero p = 0
excess_bits (suc s) p =
    let rest = excess_bits s p in if ltb p (2 ^ (52 + suc s)) then rest else suc s

-- The nearest integer that has 53 bits and zeros after them.
unfoldable pub round_53 : ℕ → ℕ
round_53 p = let s = excess_bits 64 p in round_even p (2 ^ s) * 2 ^ s

-- `int64(x * y)`, for an integer x.
unfoldable pub multiply_truncated : ℕ → Double → ℕ
multiply_truncated x y = round_53 (x * y.mantissa) / 2 ^ y.scale
