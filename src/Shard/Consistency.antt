-- ===== src/Shard/Consistency.antt =====
-- internal/shard/hasher.go: what `JumpHash` promises.
use wormsign.Common.{
  ℕ, zero, suc, ◌+◌, ◌^◌, ◌≤◌, ◌<◌, ◌≡◌, ap, ◌⊎◌, inl, inr, true, some, ltb, Bool-cases, arith,
}
use wormsign.Shard.Hasher.{next_key, next_jump, jump_loop, jump_hash, bucket, in_bucket}
use wormsign.Shard.Jump.{next_jump-above}

next_key-word : (key : ℕ) → next_key key < 2 ^ 64
unfolding next_key
next_key-word key = omega arith

forwards : (n key j : ℕ) → n ≤ 2 ^ 31 → ltb j n ≡ true → j < next_jump j (next_key key)
forwards n key j short more = next_jump-above j (next_key key) (next_key-word key) (ground arith)

-- Enough fuel: each round moves on by at least 1.
jump_loop-bucket :
    (fuel n key b j : ℕ)
    → n ≤ fuel + j
    → n ≤ 2 ^ 31
    → b < n
    → (r : ℕ) × (jump_loop fuel n key b j ≡ some r) × (r < n)
unfolding jump_loop
jump_loop-bucket zero n key b j enough short below = (b, ground arith, below)
jump_loop-bucket (suc fuel) n key b j enough short below = elim (Bool-cases (ltb j n)) [
  | inl more ↦
      let next = forwards n key j short more in
      let (r, at, bound) =
        jump_loop-bucket fuel n (next_key key) j (next_jump j (next_key key)) (omega (arith, next))
          short (ground arith) in
      (r, ground (arith, at), bound)
  | inr stop ↦ (b, ground arith, below)
]

loop_stopped : (fuel n key b j : ℕ) → n ≤ j → jump_loop fuel n key b j ≡ some b
unfolding jump_loop
loop_stopped zero n key b j past = ground arith
loop_stopped (suc fuel) n key b j past = ground arith

-- Where the loop for n buckets has stopped, the one for n + 1 stops too, or jumps once to n.
one_more :
    (fuel n key b j : ℕ)
    → n < 2 ^ 31
    → n ≤ j
    → (jump_loop (suc fuel) (suc n) key b j ≡ some b)
      ⊎ (jump_loop (suc fuel) (suc n) key b j ≡ some n)
unfolding jump_loop
one_more fuel n key b j short past = elim (Bool-cases (ltb j (suc n))) [
  | inl more ↦
      let at : j ≡ n = ground arith in
      let next = forwards (suc n) key j (omega arith) more in
      let stopped =
        loop_stopped fuel (suc n) (next_key key) j (next_jump j (next_key key))
          (omega (arith, next)) in
      inr (ground (arith, stopped, at))
  | inr stop ↦ inl (ground arith)
]

jump_loop-suc :
    (fuel n key b j r : ℕ)
    → n < 2 ^ 31
    → jump_loop fuel n key b j ≡ some r
    → (jump_loop (suc fuel) (suc n) key b j ≡ some r)
      ⊎ (jump_loop (suc fuel) (suc n) key b j ≡ some n)
unfolding jump_loop
jump_loop-suc zero n key b j r short at =
    let past : n ≤ j = ground arith in ground (arith, one_more zero n key b j short past)
jump_loop-suc (suc fuel) n key b j r short at = elim (Bool-cases (ltb j n)) [
  | inl more ↦
      let later =
        jump_loop-suc fuel n (next_key key) j (next_jump j (next_key key)) r short (ground arith) in
      ground (arith, later)
  | inr stop ↦
      let past : n ≤ j = ground arith in ground (arith, one_more (suc fuel) n key b j short past)
]

-- For 1 to 2 ^ 31 buckets, `JumpHash` returns a bucket's number: it neither panics nor loops for ever,
-- and the number is less than the number of buckets.
pub jump_hash-bucket :
    (key n : ℕ) → 0 < n → n ≤ 2 ^ 31 → (r : ℕ) × (jump_hash key n ≡ bucket r) × (r < n)
unfolding jump_hash
jump_hash-bucket key zero some_bucket short = (0, ground arith, omega arith)
jump_hash-bucket key (suc n) some_bucket short =
    let next = next_jump-above 0 (next_key key) (next_key-word key) (omega arith) in
    let (r, at, bound) =
      jump_loop-bucket n (suc n) (next_key key) 0 (next_jump 0 (next_key key)) (omega (arith, next))
        short (omega arith) in
    (r, ap in_bucket at, bound)

-- Minimal disruption: when a bucket is added to between 1 and 2 ^ 31 - 1 buckets, a key stays in its bucket
-- or moves to the new one.
pub jump_hash-suc :
    (key n r : ℕ)
    → n < 2 ^ 31
    → jump_hash key n ≡ bucket r
    → (jump_hash key (suc n) ≡ bucket r) ⊎ (jump_hash key (suc n) ≡ bucket n)
unfolding jump_hash
jump_hash-suc key zero r short at = ground arith
jump_hash-suc key (suc n) r short at =
    let later =
      jump_loop-suc n (suc n) (next_key key) 0 (next_jump 0 (next_key key)) r short
        (ground arith) in
    ground (arith, later)
