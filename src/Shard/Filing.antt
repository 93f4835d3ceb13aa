-- ===== src/Shard/Filing.antt =====
-- internal/shard/manager.go: the loop of `reconcile` that files the assignments under the names of the peers.
use wormsign.Common.{
  ℕ, zero, suc, ◌+◌, ◌^◌, ◌≤◌, ◌<◌, ◌≡◌, refl, sym, ap, ◌∙◌, String, Bool, ◌&&◌, List, [], ◌∷◌,
  Option, some, ltb, ◌==◌, if◌then◌else◌, length, keep, Bool-cases, inl, inr, eq_iff, str_eq, arith,
}
use wormsign.Common.Keys.{string_eq}
use wormsign.Common.Maps.{lookup, insert, lookup-insert}
use wormsign.Shard.Names.{sort, number_eq}
use wormsign.Shard.Hasher.{hash_namespace}
use wormsign.Shard.Consistency.{jump_hash-bucket}
use wormsign.Shard.Assignment.{slice_at, falls_to, assign_namespaces, assign_namespaces-lookup}
use wormsign.Shard.Manager.{contains}
use wormsign.Shard.Coordinator.{get_elem?, file_assignments}
use wormsign.Shard.Diff.{contains-sort, contains-keep}

-- No two indices hold the same name.
abbrev pub IsDistinct : List String → Type 0
IsDistinct xs = (i j : ℕ) (x : String) → get_elem? xs i ≡ some x → get_elem? xs j ≡ some x → i ≡ j

get_elem?_inside :
    (xs : List String) (i : ℕ) → i < length xs → (x : String) × (get_elem? xs i ≡ some x)
unfolding get_elem?
get_elem?_inside [] i h = ("", ground arith)
get_elem?_inside (x ∷ xs) zero h = (x, refl)
get_elem?_inside (x ∷ xs) (suc i) h = get_elem?_inside xs i (omega arith)

get_elem?_bound : (xs : List String) (i : ℕ) (x : String) → get_elem? xs i ≡ some x → i < length xs
unfolding get_elem?
get_elem?_bound [] i x h = ground arith
get_elem?_bound (y ∷ xs) zero x h = omega arith
get_elem?_bound (y ∷ xs) (suc i) x h = omega (arith, get_elem?_bound xs i x h)

-- What the loop that files the assignments leaves under a peer's name, from index `i` on.
abbrev Filed :
    ℕ
    → ℕ
    → List String
    → List (ℕ × List String)
    → List (String × List String)
    → List (String × List String)
    → Type 0
Filed i left peers assignments m r =
    (j : ℕ) (q : String)
    → get_elem? peers j ≡ some q
    → j < i + left
    → lookup q r ≡ (if ltb j i then lookup q m else some (sort (slice_at (lookup j assignments))))

filed_one :
    (i : ℕ) (peers : List String) (v : List String) (m : List (String × List String)) (p : String)
    → IsDistinct peers
    → get_elem? peers i ≡ some p
    → (j : ℕ) (q : String) → get_elem? peers j ≡ some q
    → lookup q (insert p v m) ≡ (if j == i then some v else lookup q m)
filed_one i peers v m p distinct here j q there = elim (Bool-cases (str_eq p q)) [
  | inl same ↦
      let at : j ≡ i = distinct j i q there (here ∙ ap some ((eq_iff p q).0 same)) in
      ground (arith, lookup-insert p q v m, at)
  | inr other ↦ elim (Bool-cases (j == i)) [
    | inl equal ↦
        let at : j ≡ i = ground arith in
        let both : some p ≡ some q = sym here ∙ (ap (get_elem? peers) (sym at) ∙ there) in
        ground (arith, both, eq_iff p q)
    | inr differ ↦ ground (arith, lookup-insert p q v m)
  ]
]

pick_index :
    (i j : ℕ) (assignments : List (ℕ × List String)) (old : Option (List String))
    → (if ltb j (suc i)
        then (if j == i then some (sort (slice_at (lookup i assignments))) else old)
        else some (sort (slice_at (lookup j assignments))))
      ≡ (if ltb j i then old else some (sort (slice_at (lookup j assignments))))
pick_index i j assignments old = elim (Bool-cases (j == i)) [
  | inl equal ↦
      let at : j ≡ i = ground arith in
      ground (arith, ap (λ k. some (sort (slice_at (lookup k assignments)))) at)
  | inr differ ↦ ground arith
]

file_assignments-Filed :
    (i left : ℕ) (peers : List String) (assignments : List (ℕ × List String))
    (m : List (String × List String))
    → IsDistinct peers
    → i + left ≤ length peers
    → (r : List (String × List String)) × (file_assignments i left peers assignments m ≡ some r)
      × Filed i left peers assignments m r
unfolding file_assignments
file_assignments-Filed i zero peers assignments m distinct enough =
    (m, refl, λ j q at bound. ground arith)
file_assignments-Filed i (suc left) peers assignments m distinct enough =
    let (p, here) = get_elem?_inside peers i (omega arith) in
    let v = sort (slice_at (lookup i assignments)) in
    let (r, at, filed) =
      file_assignments-Filed (suc i) left peers assignments (insert p v m) distinct (omega arith) in
    (
      r,
      ground (arith, at, here),
      λ j q there bound.
          filed j q there (omega arith)
          ∙ (ap (λ u. if ltb j (suc i) then u else some (sort (slice_at (lookup j assignments))))
                (filed_one i peers v m p distinct here j q there)
              ∙ pick_index i j assignments (lookup q m)),
    )

-- Each name that is listed is filed under one peer, and no other name is filed at all.
abbrev pub EachOnce : (String → Bool) → List String → List (String × List String) → Type 0
EachOnce listed peers filed =
    (x : String)
    → (i : ℕ) × (i < length peers)
      × ((j : ℕ) (q : String)
          → get_elem? peers j ≡ some q
          → contains (slice_at (lookup q filed)) x ≡ (j == i) && listed x)

pub file_assignments-EachOnce :
    (names peers : List String)
    → 0 < length peers
    → length peers ≤ 2 ^ 31
    → IsDistinct peers
    → (a : List (ℕ × List String)) × (filed : List (String × List String)) × (assign_namespaces
          names
          (length peers)
        ≡ some a)
      × (file_assignments 0 (length peers) peers a [] ≡ some filed)
      × EachOnce (contains names) peers filed
file_assignments-EachOnce names peers some_peer short distinct =
    let n = length peers in
    let (a, assigned, held) = assign_namespaces-lookup names n some_peer short in
    let (filed, at, holds) = file_assignments-Filed 0 n peers a [] distinct (omega arith) in
    (
      a,
      filed,
      assigned,
      at,
      λ x.
          let (b, into, bound) = jump_hash-bucket (hash_namespace x) n some_peer short in
          (
            b,
            bound,
            λ j q there.
                let inside = get_elem?_bound peers j q there in
                let mine : slice_at (lookup q filed) ≡ sort (keep (falls_to n j) names) =
                  ground (arith, holds j q there, held j, inside) in
                ap (λ k. contains k x) mine
                ∙ (contains-sort (keep (falls_to n j) names) x
                    ∙ (contains-keep (falls_to n j) names x ∙ ground (arith, into))),
          ),
    )
