-- ===== src/Shard/Assignment.antt =====
-- internal/shard/hasher.go: `AssignNamespaces`.
use mathlib.Core.List.{append-nil, append_assoc}
use wormsign.Common.{
  ℕ, zero, suc, ◌^◌, ◌≤◌, ◌<◌, ◌≡◌, refl, sym, ap, subst, ◌∙◌, inl, inr, String, Bool, false, List,
  [], ◌∷◌, ◌++◌, Option, none, some, ltb, ◌==◌, if◌then◌else◌, keep, Bool-cases, arith,
}
use wormsign.Common.Maps.{lookup, insert, lookup-insert}
use wormsign.Shard.Hasher.{HashResult, bucket, jump_hash, hash_namespace}
use wormsign.Shard.Consistency.{jump_hash-bucket}
use wormsign.Shard.Names.{number_eq}

-- `for i := 0; i < n; i++ { m[i] = []string{} }`
unfoldable pub fill_empty : ℕ → List (ℕ × List String) → List (ℕ × List String)
fill_empty zero m = m
fill_empty (suc n) m = insert n [] (fill_empty n m)

-- `m[k]`, a nil slice for a missing key.
abbrev pub slice_at : Option (List String) → List String
slice_at none = []
slice_at (some xs) = xs

-- The bucket of a namespace among `n`.
abbrev pub namespace_bucket : ℕ → String → HashResult
namespace_bucket n namespace = jump_hash (hash_namespace namespace) n

-- The second loop of `AssignNamespaces`; `none` stands for a panic of `JumpHash`.
unfoldable pub assign_each :
    ℕ → List (ℕ × List String) → List String → Option (List (ℕ × List String))
assign_each n m [] = some m
assign_each n m (x ∷ xs) = elim (namespace_bucket n x) [
  | bucket b ↦ assign_each n (insert b (slice_at (lookup b m) ++ x ∷ []) m) xs
  | _ ↦ none
]

unfoldable pub assign_namespaces : List String → ℕ → Option (List (ℕ × List String))
unfolding fill_empty assign_each
assign_namespaces namespaces num_replicas =
    assign_each num_replicas (fill_empty num_replicas []) namespaces

-- The namespace falls to the replica with this index.
abbrev pub is_bucket : ℕ → HashResult → Bool
is_bucket i (bucket b) = b == i
is_bucket i _ = false

abbrev pub falls_to : ℕ → ℕ → String → Bool
falls_to n i namespace = is_bucket i (namespace_bucket n namespace)

-- What a map holds at an index below n, and that it holds nothing from n on.
abbrev pub below : {A : Type 0} → ℕ → ℕ → A → Option A
below n i x = if ltb i n then some x else none

lookup-fill_empty : (n i : ℕ) → lookup i (fill_empty n []) ≡ below n i []
unfolding fill_empty lookup
lookup-fill_empty zero i = ground arith
lookup-fill_empty (suc n) i =
    ground (arith, lookup-insert n i [] (fill_empty n []), lookup-fill_empty n i)

-- What an index holds once a name is appended at `b`.
abbrev held_after : ℕ → String → (ℕ → List String) → ℕ → List String
held_after b x held i = if b == i then held i ++ x ∷ [] else held i

lookup_after :
    (n b i : ℕ) (m : List (ℕ × List String)) (held : ℕ → List String) (x : String)
    → b < n
    → ((k : ℕ) → lookup k m ≡ below n k (held k))
    → lookup i (insert b (slice_at (lookup b m) ++ x ∷ []) m) ≡ below n i (held_after b x held i)
lookup_after n b i m held x bound at =
    let inserted = lookup-insert b i (slice_at (lookup b m) ++ x ∷ []) m in
    let here : lookup b m ≡ some (held b) = ground (arith, at b) in
    elim (Bool-cases (b == i)) [
      | inl same ↦
          let eq : b ≡ i = ground arith in
          let appended = lookup-insert b b (slice_at (lookup b m) ++ x ∷ []) m in
          subst
            (λ k.
              lookup k (insert b (slice_at (lookup b m) ++ x ∷ []) m)
              ≡ below n k (held_after b x held k))
            eq (ground (arith, appended, here))
      | inr other ↦ ground (arith, inserted, at i)
    ]

held_then :
    (held : ℕ → List String) (r : HashResult) (b i : ℕ) (x : String) (rest : List String)
    → r ≡ bucket b
    → held_after b x held i ++ rest ≡ held i ++ (if is_bucket i r then x ∷ rest else rest)
held_then held r b i x rest into = elim (Bool-cases (b == i)) [
  | inl same ↦ ground (arith, append_assoc (held i) (x ∷ []) rest)
  | inr other ↦ ground arith
]

assign_each-lookup :
    (n : ℕ) (m : List (ℕ × List String)) (held : ℕ → List String) (xs : List String)
    → 0 < n
    → n ≤ 2 ^ 31
    → ((i : ℕ) → lookup i m ≡ below n i (held i))
    → (r : List (ℕ × List String)) × (assign_each n m xs ≡ some r)
      × ((i : ℕ) → lookup i r ≡ below n i (held i ++ keep (falls_to n i) xs))
unfolding assign_each
assign_each-lookup n m held [] some_replica short at =
    (m, refl, λ i. at i ∙ ap (below n i) (sym (append-nil (held i))))
assign_each-lookup n m held (x ∷ xs) some_replica short at =
    let (b, into, bound) = jump_hash-bucket (hash_namespace x) n some_replica short in
    let (r, assigned, found) =
      assign_each-lookup n (insert b (slice_at (lookup b m) ++ x ∷ []) m) (held_after b x held) xs
        some_replica short (λ i. lookup_after n b i m held x bound at) in
    (
      r,
      ground (arith, into, assigned),
      λ i.
          found i
          ∙ ap (below n i)
              (held_then held (namespace_bucket n x) b i x (keep (falls_to n i) xs) into),
    )

-- Every index below the number of replicas gets the namespaces that the hash puts into its bucket, in
-- their order, and no other index occurs, for 1 to 2 ^ 31 replicas. Nothing panics.
pub assign_namespaces-lookup :
    (namespaces : List String) (n : ℕ)
    → 0 < n
    → n ≤ 2 ^ 31
    → (r : List (ℕ × List String)) × (assign_namespaces namespaces n ≡ some r)
      × ((i : ℕ) → lookup i r ≡ below n i (keep (falls_to n i) namespaces))
unfolding assign_namespaces
assign_namespaces-lookup namespaces n some_replica short =
    assign_each-lookup n (fill_empty n []) (λ i. []) namespaces some_replica short
      (lookup-fill_empty n)
