-- ===== src/Pipeline/Correlator/Filed.antt =====
-- internal/pipeline/correlator/rules.go: what is filed under a key has that key.
use mathlib.Core.Bool.{Bool-set}
use mathlib.Core.List.{Perm, Permᴰ}
use mathlib.Core.Logic.{∥∥₁_elim}
use wormsign.Common.{
  ◌≡◌, refl, ap, ◌∙◌, Bool, true, false, ◌&&◌, List, [], ◌∷◌, ◌++◌, Option, none, some, all, any,
  Bool-cases, inl, inr, arith,
}
use wormsign.Common.Keys.{Eq, ◌=?◌, =?_refl}
use wormsign.Common.Maps.{insert}
use wormsign.Model.{FaultEvent}
use wormsign.Pipeline.Correlator.Defs.{
  file_head, collect_heads, append_to, file_member, collect_groups, group_of,
}

module _ {ℓ} {A : Type ℓ} where
  all-append : (p : A → Bool) (xs ys : List A) → all p (xs ++ ys) ≡ (all p xs && all p ys)
  all-append p [] ys = refl
  all-append p (x ∷ xs) ys = ground (arith, all-append p xs ys)

  all-permᴰ : (p : A → Bool) {xs ys : List A} → Permᴰ xs ys → all p xs ≡ all p ys
  all-permᴰ p Permᴰ.nil = refl
  all-permᴰ p (Permᴰ.cons e q) = ground (arith, ap p e, all-permᴰ p q)
  all-permᴰ p (Permᴰ.swap e d) = ground (arith, ap p e, ap p d)
  all-permᴰ p (Permᴰ.trans q r) = all-permᴰ p q ∙ all-permᴰ p r

  pub all-perm : (p : A → Bool) {xs ys : List A} → Perm xs ys → all p xs ≡ all p ys
  all-perm p q = ∥∥₁_elim q (Bool-set _ _) (all-permᴰ p)

  any-permᴰ : (p : A → Bool) {xs ys : List A} → Permᴰ xs ys → any p xs ≡ any p ys
  any-permᴰ p Permᴰ.nil = refl
  any-permᴰ p (Permᴰ.cons e q) = ground (arith, ap p e, any-permᴰ p q)
  any-permᴰ p (Permᴰ.swap e d) = ground (arith, ap p e, ap p d)
  any-permᴰ p (Permᴰ.trans q r) = any-permᴰ p q ∙ any-permᴰ p r

  pub any-perm : (p : A → Bool) {xs ys : List A} → Perm xs ys → any p xs ≡ any p ys
  any-perm p q = ∥∥₁_elim q (Bool-set _ _) (any-permᴰ p)

module _ {K : Type 0} ⦃eq : Eq K⦄ where
  abbrev pub is_key : K → Option K → Bool
  is_key k none = false
  is_key k (some j) = j =? k

  -- The key of the event is this one.
  abbrev pub has_key : (FaultEvent → Option K) → K → FaultEvent → Bool
  has_key key k e = is_key k (key e)

  abbrev pub heads_filed : (FaultEvent → Option K) → List (K × FaultEvent) → Bool
  heads_filed key = all (λ x. has_key key x.0 x.1)

  abbrev pub groups_filed : (FaultEvent → Option K) → List (K × List FaultEvent) → Bool
  groups_filed key = all (λ x. all (has_key key x.0) x.1)

  insert-filed :
      (key : FaultEvent → Option K) (k : K) (e : FaultEvent) (m : List (K × FaultEvent))
      → has_key key k e ≡ true
      → heads_filed key m ≡ true
      → heads_filed key (insert k e m) ≡ true
  unfolding insert
  insert-filed key k e [] h hs = ground arith
  insert-filed key k e ((j, g) ∷ m) h hs = elim (Bool-cases (j =? k)) [
    | inl same ↦ rw same (ground (arith, eq.beq_iff j k))
    | inr other ↦ rw other (ground (arith, insert-filed key k e m h))
  ]

  file_head-filed :
      (key : FaultEvent → Option K) (o : Option K) (e : FaultEvent) (m : List (K × FaultEvent))
      → key e ≡ o
      → heads_filed key m ≡ true
      → heads_filed key (file_head o e m) ≡ true
  unfolding file_head
  file_head-filed key none e m h hs = hs
  file_head-filed key (some k) e m h hs = insert-filed key k e m (ap (is_key k) h ∙ =?_refl k) hs

  pub collect_heads-filed :
      (key : FaultEvent → Option K) (m : List (K × FaultEvent)) (es : List FaultEvent)
      → heads_filed key m ≡ true
      → heads_filed key (collect_heads key m es) ≡ true
  unfolding collect_heads
  collect_heads-filed key m [] h = h
  collect_heads-filed key m (e ∷ es) h =
      collect_heads-filed key (file_head (key e) e m) es (file_head-filed key (key e) e m refl h)

  append_to-filed :
      (key : FaultEvent → Option K) (k : K) (e : FaultEvent) (m : List (K × List FaultEvent))
      → has_key key k e ≡ true
      → groups_filed key m ≡ true
      → groups_filed key (append_to k e m) ≡ true
  unfolding append_to
  append_to-filed key k e [] h hs = ground arith
  append_to-filed key k e ((j, g) ∷ m) h hs = elim (Bool-cases (j =? k)) [
    | inl same ↦ rw same (ground (arith, eq.beq_iff j k, all-append (has_key key j) g (e ∷ [])))
    | inr other ↦ rw other (ground (arith, append_to-filed key k e m h))
  ]

  file_member-filed :
      (key : FaultEvent → Option K) (o : Option K) (e : FaultEvent) (m : List (K × List FaultEvent))
      → key e ≡ o
      → groups_filed key m ≡ true
      → groups_filed key (file_member o e m) ≡ true
  unfolding file_member
  file_member-filed key none e m h hs = hs
  file_member-filed key (some k) e m h hs =
      append_to-filed key k e m (ap (is_key k) h ∙ =?_refl k) hs

  pub collect_groups-filed :
      (key : FaultEvent → Option K) (m : List (K × List FaultEvent)) (es : List FaultEvent)
      → groups_filed key m ≡ true
      → groups_filed key (collect_groups key m es) ≡ true
  unfolding collect_groups
  collect_groups-filed key m [] h = h
  collect_groups-filed key m (e ∷ es) h =
      collect_groups-filed key (file_member (key e) e m) es
        (file_member-filed key (key e) e m refl h)

  pub group_of-filed :
      (key : FaultEvent → Option K) (m : List (K × List FaultEvent)) (k : K)
      → groups_filed key m ≡ true
      → all (has_key key k) (group_of m k) ≡ true
  unfolding group_of
  group_of-filed key [] k h = refl
  group_of-filed key ((j, g) ∷ m) k h = elim (Bool-cases (j =? k)) [
    | inl same ↦ rw same (ground (arith, eq.beq_iff j k))
    | inr other ↦ rw other (ground (arith, group_of-filed key m k))
  ]
