-- ===== src/Shard/Hasher.antt =====
-- internal/shard/hasher.go: `JumpHash` and `HashNamespace`. A jump from a bucket below 2 ^ 31 is at most
-- 2 ^ 62, so the conversion to an `int64` does not overflow for up to 2 ^ 31 buckets.
use Prim.Native.Nat.{bit_xor}
use Prim.Native.Char.{code}
use Prim.Native.String.{[] as no_char, ◌∷◌ as ◌then_char◌}
use wormsign.Common.{
  ℕ, zero, suc, ◌+◌, ◌*◌, ◌/◌, ◌%◌, ◌^◌, String, true, false, List, [], ◌∷◌, ◌++◌, Option, none,
  some, ltb, if◌then◌else◌,
}
use wormsign.Shard.Doubles.{divide, multiply_truncated}

-- `key*2862933555777941757 + 1`
unfoldable pub next_key : ℕ → ℕ
next_key key = (key * 2862933555777941757 + 1) % 2 ^ 64

-- `int64(float64(b+1) * (float64(int64(1)<<31) / float64((key>>33)+1)))`
unfoldable pub next_jump : ℕ → ℕ → ℕ
unfolding divide multiply_truncated
next_jump b key = multiply_truncated (b + 1) (divide (2 ^ 31) (key / 2 ^ 33 + 1))

-- The loop, on fuel, from its second round on.
unfoldable pub jump_loop : ℕ → ℕ → ℕ → ℕ → ℕ → Option ℕ
jump_loop zero n key b j = if ltb j n then none else some b
jump_loop (suc fuel) n key b j = elim (ltb j n) [
  | false ↦ some b
  | true ↦ jump_loop fuel n (next_key key) j (next_jump j (next_key key))
]

pub data HashResult : Type 0 where
  panicked out_of_fuel : HashResult
  bucket : ℕ → HashResult

abbrev pub in_bucket : Option ℕ → HashResult
in_bucket none = out_of_fuel
in_bucket (some b) = bucket b

-- The first round always runs: `b` is 0 after it.
unfoldable pub jump_hash : ℕ → ℕ → HashResult
jump_hash key zero = panicked
jump_hash key (suc n) =
    in_bucket (jump_loop n (suc n) (next_key key) 0 (next_jump 0 (next_key key)))

-- The UTF-8 of a character.
abbrev pub utf8 : ℕ → List ℕ
utf8 c =
    if ltb c 128
    then c ∷ []
    else if ltb c 2048
    then (192 + c / 64) ∷ (128 + c % 64) ∷ []
    else if ltb c 65536
    then (224 + c / 4096) ∷ (128 + c / 64 % 64) ∷ (128 + c % 64) ∷ []
    else (240 + c / 262144) ∷ (128 + c / 4096 % 64) ∷ (128 + c / 64 % 64) ∷ (128 + c % 64) ∷ []

-- `[]byte(s)`
abbrev pub bytes : String → List ℕ
bytes no_char = []
bytes (◌then_char◌ c s) = utf8 (code c) ++ bytes s

-- The hash of FNV-1a, from a state: each byte is mixed in by an exclusive or, then a product.
abbrev pub fnv_1a : ℕ → List ℕ → ℕ
fnv_1a h [] = h
fnv_1a h (x ∷ xs) = fnv_1a (bit_xor h x * 1099511628211 % 2 ^ 64) xs

unfoldable pub hash_namespace : String → ℕ
hash_namespace namespace = fnv_1a 14695981039346656037 (bytes namespace)
