-- ===== src/Common/Maps.antt =====
-- Go maps as association lists: one entry for a key, in the order of first insertion.
use Prim.Native.Nat.{◌≤◌, max}
use mathlib.Core.Path.{◌≡◌, refl}
use mathlib.Core.Bool.{Bool}
use mathlib.Core.List.{List, [], ◌∷◌}
use mathlib.Core.Option.{Option, none, some}
use native.Mathlib.Omega.{arith}
use wormsign.Common.Tests.{if◌then◌else◌}
use wormsign.Common.Counting.{count}
use wormsign.Common.Keys.{Eq, ◌=?◌}

-- What is found after a deletion.
abbrev pub unless {ℓ} : {A : Type ℓ} → (A → Bool) → Option A → Option A
unless p none = none
unless p (some v) = if p v then none else some v

module _ {ℓ κ} {K : Type ℓ} {V : Type κ} ⦃e : Eq K⦄ where
  -- `v, ok := m[k]`
  unfoldable pub lookup : K → List (K × V) → Option V
  lookup k [] = none
  lookup k ((j, v) ∷ m) = if j =? k then some v else lookup k m

  -- `m[k] = v`
  unfoldable pub insert : K → V → List (K × V) → List (K × V)
  insert k v [] = (k, v) ∷ []
  insert k v ((j, w) ∷ m) = if j =? k then (j, v) ∷ m else (j, w) ∷ insert k v m

  -- `for k, v := range m { if p(k, v) { delete(m, k) } }`
  unfoldable pub delete_where : (V → Bool) → List (K × V) → List (K × V)
  delete_where p [] = []
  delete_where p ((j, w) ∷ m) = if p w then delete_where p m else (j, w) ∷ delete_where p m

  pub lookup-insert :
      (k j : K) (v : V) (m : List (K × V))
      → lookup j (insert k v m) ≡ (if k =? j then some v else lookup j m)
  unfolding lookup insert
  lookup-insert k j v [] = refl
  lookup-insert k j v ((i, w) ∷ m) =
      ground (arith, e.beq_iff k j, e.beq_iff i k, e.beq_iff i j, lookup-insert k j v m)

  pub count-insert :
      (k j : K) (v : V) (m : List (K × V))
      → count (λ x. j =? x.0) (insert k v m)
        ≡ (if j =? k then max 1 (count (λ x. j =? x.0) m) else count (λ x. j =? x.0) m)
  unfolding insert
  count-insert k j v [] = ground arith
  count-insert k j v ((i, w) ∷ m) =
      ground (arith, e.beq_iff i k, e.beq_iff j k, e.beq_iff j i, count-insert k j v m)

  -- A map has at most one entry for a key.
  abbrev pub IsMap : List (K × V) → Type ℓ
  IsMap m = (k : K) → count (λ x. k =? x.0) m ≤ 1

  lookup_absent : (k : K) (m : List (K × V)) → count (λ x. k =? x.0) m ≡ 0 → lookup k m ≡ none
  unfolding lookup
  lookup_absent k [] h = refl
  lookup_absent k ((j, v) ∷ m) h = ground (arith, e.beq_iff j k, e.beq_iff k j, lookup_absent k m)

  count-delete_where :
      (k : K) (p : V → Bool) (m : List (K × V))
      → count (λ x. k =? x.0) (delete_where p m) ≤ count (λ x. k =? x.0) m
  unfolding delete_where
  count-delete_where k p [] = omega arith
  count-delete_where k p ((j, v) ∷ m) = ground (arith, count-delete_where k p m)

  pub lookup-delete_where :
      (k : K) (p : V → Bool) (m : List (K × V))
      → count (λ x. k =? x.0) m ≤ 1
      → lookup k (delete_where p m) ≡ unless p (lookup k m)
  unfolding lookup delete_where
  lookup-delete_where k p [] h = refl
  lookup-delete_where k p ((j, v) ∷ m) h = ground (
    arith,
    e.beq_iff j k,
    e.beq_iff k j,
    lookup-delete_where k p m,
    lookup_absent k (delete_where p m),
    count-delete_where k p m,
  )

  pub insert-IsMap : (k : K) (v : V) (m : List (K × V)) → IsMap m → IsMap (insert k v m)
  insert-IsMap k v m h j = ground (arith, count-insert k j v m, h j)

  pub delete_where-IsMap : (p : V → Bool) (m : List (K × V)) → IsMap m → IsMap (delete_where p m)
  delete_where-IsMap p m h j = omega (arith, count-delete_where j p m, h j)
