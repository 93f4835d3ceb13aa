-- ===== src/Pipeline/Correlator/Grouping.antt =====
-- internal/pipeline/correlator/rules.go: the groups that a rule forms hold no event twice, and none
-- but those that it was given.
use mathlib.Core.List.{Perm}
use wormsign.Common.{
  ℕ, zero, suc, ◌+◌, ◌*◌, ◌≤◌, ◌≡◌, refl, ap, Bool, true, false, not, ◌&&◌, List, [], ◌∷◌, ◌++◌,
  map, Option, none, some, keep, concat_map, if◌then◌else◌, eq_iff, Bool-cases, inl, inr, arith,
}
use wormsign.Common.Counting.{
  bit, count, Sub, sum_by, count-append, count-keep-le, count_disjoint, sum_by-perm, count-sum_by,
}
use wormsign.Common.Keys.{Eq, ◌=?◌}
use wormsign.Common.Maps.{insert, count-insert}
use wormsign.Common.Order.{MapOrder}
use wormsign.Model.{FaultEvent, ResourceRef}
use wormsign.Pipeline.Correlator.Defs.{
  file_head, collect_heads, append_to, file_member, collect_groups, group_of, cascade_group,
  plain_group, headed, cascade_groups, plain_groups, node_key, node_pod_key, pvc_key, pvc_pod_key,
}
use wormsign.Pipeline.Correlator.Emission.{gathered}

abbrev pub is_some {ℓ} : {A : Type ℓ} → Option A → Bool
is_some none = false
is_some (some a) = true

mul_le : (c n : ℕ) → c ≤ 1 → c * n ≤ n
mul_le zero n h = omega arith
mul_le (suc zero) n h = omega arith
mul_le (suc (suc c)) n h = absurd (omega arith)

-- One more event, filed or not, in a bound by what is kept of the events.
keep_filed :
    (p t : FaultEvent → Bool) (e : FaultEvent) (es : List FaultEvent) (a b c : ℕ)
    → b ≤ (if t e then bit (p e) else 0) + a
    → c ≤ b + count p (keep t es)
    → c ≤ a + count p (keep t (e ∷ es))
keep_filed p t e es a b c h k = ground arith

module _ {K : Type 0} ⦃eq : Eq K⦄ where
  abbrev heads_of : List (K × FaultEvent) → List FaultEvent
  heads_of = map (λ x. x.1)

  abbrev members_of : List (K × List FaultEvent) → List FaultEvent
  members_of = concat_map (λ x. x.1)

  heads_of-insert :
      (p : FaultEvent → Bool) (k : K) (e : FaultEvent) (m : List (K × FaultEvent))
      → count p (heads_of (insert k e m)) ≤ bit (p e) + count p (heads_of m)
  unfolding insert
  heads_of-insert p k e [] = omega arith
  heads_of-insert p k e ((j, h) ∷ m) = ground (arith, heads_of-insert p k e m)

  heads_of-file :
      (p : FaultEvent → Bool) (o : Option K) (e : FaultEvent) (m : List (K × FaultEvent))
      → count p (heads_of (file_head o e m))
        ≤ (if is_some o then bit (p e) else 0) + count p (heads_of m)
  unfolding file_head
  heads_of-file p none e m = omega arith
  heads_of-file p (some k) e m = heads_of-insert p k e m

  heads_of-collect :
      (p : FaultEvent → Bool) (key : FaultEvent → Option K) (m : List (K × FaultEvent))
      (es : List FaultEvent)
      → count p (heads_of (collect_heads key m es))
        ≤ count p (heads_of m) + count p (keep (λ e. is_some (key e)) es)
  unfolding collect_heads
  heads_of-collect p key m [] = omega arith
  heads_of-collect p key m (e ∷ es) =
      keep_filed p (λ e. is_some (key e)) e es _ _ _ (heads_of-file p (key e) e m)
        (heads_of-collect p key (file_head (key e) e m) es)

  members_of-append_to :
      (p : FaultEvent → Bool) (k : K) (e : FaultEvent) (m : List (K × List FaultEvent))
      → count p (members_of (append_to k e m)) ≡ bit (p e) + count p (members_of m)
  unfolding append_to
  members_of-append_to p k e [] = omega arith
  members_of-append_to p k e ((j, g) ∷ m) = elim (Bool-cases (j =? k)) [
    | inl same ↦ rw same (
        omega (
          arith,
          count-append p (g ++ e ∷ []) (members_of m),
          count-append p g (e ∷ []),
          count-append p g (members_of m),
        ))
    | inr other ↦ rw other (
        omega (
          arith,
          members_of-append_to p k e m,
          count-append p g (members_of m),
          count-append p g (members_of (append_to k e m)),
        ))
  ]

  members_of-file :
      (p : FaultEvent → Bool) (o : Option K) (e : FaultEvent) (m : List (K × List FaultEvent))
      → count p (members_of (file_member o e m))
        ≤ (if is_some o then bit (p e) else 0) + count p (members_of m)
  unfolding file_member
  members_of-file p none e m = omega arith
  members_of-file p (some k) e m = omega (arith, members_of-append_to p k e m)

  members_of-collect :
      (p : FaultEvent → Bool) (key : FaultEvent → Option K) (m : List (K × List FaultEvent))
      (es : List FaultEvent)
      → count p (members_of (collect_groups key m es))
        ≤ count p (members_of m) + count p (keep (λ e. is_some (key e)) es)
  unfolding collect_groups
  members_of-collect p key m [] = omega arith
  members_of-collect p key m (e ∷ es) =
      keep_filed p (λ e. is_some (key e)) e es _ _ _ (members_of-file p (key e) e m)
        (members_of-collect p key (file_member (key e) e m) es)

  group_of-cons :
      (p : FaultEvent → Bool) (j : K) (g : List FaultEvent) (m : List (K × List FaultEvent))
      (ks : List K)
      → count p (concat_map (group_of ((j, g) ∷ m)) ks)
        ≡ count (λ k. j =? k) ks * count p g
          + count p (concat_map (group_of m) (keep (λ k. not (j =? k)) ks))
  unfolding group_of
  group_of-cons p j g m [] = omega arith
  group_of-cons p j g m (k ∷ ks) = elim (Bool-cases (j =? k)) [
    | inl same ↦ rw same (
        omega (
          arith,
          group_of-cons p j g m ks,
          count-append p g (concat_map (group_of ((j, g) ∷ m)) ks),
        ))
    | inr other ↦ rw other (
        omega (
          arith,
          group_of-cons p j g m ks,
          count-append p (group_of m k) (concat_map (group_of ((j, g) ∷ m)) ks),
          count-append p (group_of m k) (concat_map (group_of m) (keep (λ k. not (j =? k)) ks)),
        ))
  ]

  nothing_filed : (p : FaultEvent → Bool) (ks : List K) → count p (concat_map (group_of []) ks) ≡ 0
  unfolding group_of
  nothing_filed p [] = refl
  nothing_filed p (k ∷ ks) = nothing_filed p ks

  -- Under distinct keys no event is found twice.
  group_of-le :
      (p : FaultEvent → Bool) (m : List (K × List FaultEvent)) (ks : List K)
      → ((j : K) → count (λ k. j =? k) ks ≤ 1)
      → count p (concat_map (group_of m) ks) ≤ count p (members_of m)
  group_of-le p [] ks d = omega (arith, nothing_filed p ks)
  group_of-le p ((j, g) ∷ m) ks d = omega (
    arith,
    group_of-cons p j g m ks,
    mul_le (count (λ k. j =? k) ks) (count p g) (d j),
    group_of-le p m (keep (λ k. not (j =? k)) ks)
        (λ i. omega (arith, d i, count-keep-le (λ k. i =? k) (λ k. not (j =? k)) ks)),
    count-append p g (members_of m),
  )

  -- A map has one entry for a key.
  abbrev HasOne : List (K × FaultEvent) → Type 0
  HasOne m = (j : K) → count (λ x. j =? x.0) m ≤ 1

  file_head-HasOne :
      (o : Option K) (e : FaultEvent) (m : List (K × FaultEvent))
      → HasOne m
      → HasOne (file_head o e m)
  unfolding file_head
  file_head-HasOne none e m h = h
  file_head-HasOne (some k) e m h = λ j. ground (arith, count-insert k j e m, h j)

  collect_heads-HasOne :
      (key : FaultEvent → Option K) (m : List (K × FaultEvent)) (es : List FaultEvent)
      → HasOne m
      → HasOne (collect_heads key m es)
  unfolding collect_heads
  collect_heads-HasOne key m [] h = h
  collect_heads-HasOne key m (e ∷ es) h =
      collect_heads-HasOne key (file_head (key e) e m) es (file_head-HasOne (key e) e m h)

  keys_count :
      (j : K) (m : List (K × FaultEvent))
      → count (λ k. j =? k) (map (λ x. x.0) m) ≡ count (λ x. j =? x.0) m
  keys_count j [] = refl
  keys_count j (x ∷ m) = ap (λ n. bit (j =? x.0) + n) (keys_count j m)

  gathered-cascade :
      (p : FaultEvent → Bool) (pods : List (K × List FaultEvent)) (hs : List (K × FaultEvent))
      → count p (gathered (map (cascade_group pods) hs))
        ≡ count p (heads_of hs) + count p (concat_map (group_of pods) (map (λ x. x.0) hs))
  gathered-cascade p pods [] = refl
  gathered-cascade p pods ((k, h) ∷ hs) = omega (
    arith,
    gathered-cascade p pods hs,
    count-append p (h ∷ group_of pods k) (gathered (map (cascade_group pods) hs)),
    count-append p (group_of pods k) (concat_map (group_of pods) (map (λ x. x.0) hs)),
  )

  gathered-plain :
      (p : FaultEvent → Bool) (primary : K → ResourceRef) (m : List (K × List FaultEvent))
      → count p (gathered (map (plain_group primary) m)) ≡ sum_by (λ x. count p x.1) m
  gathered-plain p primary [] = refl
  gathered-plain p primary ((k, g) ∷ m) =
      omega (
        arith,
        gathered-plain p primary m,
        count-append p g (gathered (map (plain_group primary) m)),
      )

  members_of-sum_by :
      (p : FaultEvent → Bool) (m : List (K × List FaultEvent))
      → count p (members_of m) ≡ sum_by (λ x. count p x.1) m
  members_of-sum_by p [] = refl
  members_of-sum_by p ((k, g) ∷ m) =
      omega (arith, members_of-sum_by p m, count-append p g (members_of m))

  heads_of-sum_by :
      (p : FaultEvent → Bool) (m : List (K × FaultEvent))
      → count p (heads_of m) ≡ sum_by (λ x. bit (p x.1)) m
  heads_of-sum_by p [] = refl
  heads_of-sum_by p (x ∷ m) = ap (λ n. bit (p x.1) + n) (heads_of-sum_by p m)

  one_key :
      (hs heads : List (K × FaultEvent))
      → Perm hs heads
      → HasOne heads
      → (j : K) → count (λ k. j =? k) (map (λ x. x.0) hs) ≤ 1
  one_key hs heads same one j = omega (
    arith,
    keys_count j hs,
    count-sum_by (λ x. j =? x.0) hs,
    sum_by-perm (λ x. bit (j =? x.0)) same,
    count-sum_by (λ x. j =? x.0) heads,
    one j,
  )

  headed_apart :
      (heads : List (K × FaultEvent)) (pod_key : FaultEvent → Option K) (e : FaultEvent) (b : Bool)
      → (b && is_some (pod_key e)) ≡ false
      → (b && is_some (headed heads pod_key e)) ≡ false
  headed_apart heads pod_key e b h = ground arith

  module _ (order : MapOrder) where
    -- The groups of a rule without heads are parts of the events.
    pub plain_groups-Sub :
        (key : FaultEvent → Option K) (primary : K → ResourceRef) (es : List FaultEvent)
        → Sub (gathered (plain_groups order key primary es)) es
    unfolding plain_groups
    plain_groups-Sub key primary es p =
        let m = collect_groups key [] es in
        omega (
          arith,
          gathered-plain p primary (order.visit (K × List FaultEvent) m),
          sum_by-perm (λ x. count p x.1) (order.visit-perm (K × List FaultEvent) m),
          members_of-sum_by p m,
          members_of-collect p key [] es,
          count-keep-le p (λ e. is_some (key e)) es,
        )

    -- So are the groups of a cascade, if no event is a head and a pod both.
    pub cascade_groups-Sub :
        (head_key pod_key : FaultEvent → Option K) (es : List FaultEvent)
        → ((e : FaultEvent) → (is_some (head_key e) && is_some (pod_key e)) ≡ false)
        → Sub (gathered (cascade_groups order head_key pod_key es)) es
    unfolding cascade_groups
    cascade_groups-Sub head_key pod_key es apart p =
        let heads = collect_heads head_key [] es in
        let filed = headed heads pod_key in
        let pods = collect_groups filed [] es in
        let hs = order.visit (K × FaultEvent) heads in
        let same = order.visit-perm (K × FaultEvent) heads in
        let one = collect_heads-HasOne head_key [] es (λ j. omega arith) in
        omega (
          arith,
          gathered-cascade p pods hs,
          heads_of-sum_by p hs,
          heads_of-sum_by p heads,
          sum_by-perm (λ x. bit (p x.1)) same,
          heads_of-collect p head_key [] es,
          group_of-le p pods (map (λ x. x.0) hs) (one_key hs heads same one),
          members_of-collect p filed [] es,
          count_disjoint p (λ e. is_some (head_key e)) (λ e. is_some (filed e)) es
              (λ e. headed_apart heads pod_key e (is_some (head_key e)) (apart e)),
        )

-- No event is both the node's and a pod's, nor both the claim's and a pod's.
pub node_apart : (e : FaultEvent) → (is_some (node_key e) && is_some (node_pod_key e)) ≡ false
unfolding node_key node_pod_key
node_apart e =
    ground (arith, eq_iff e.resource.kind "Node", eq_iff e.resource.kind "Pod", eq_iff "Node" "Pod")

pub pvc_apart : (e : FaultEvent) → (is_some (pvc_key e) && is_some (pvc_pod_key e)) ≡ false
unfolding pvc_key pvc_pod_key
pvc_apart e = ground (
  arith,
  eq_iff e.resource.kind "PersistentVolumeClaim",
  eq_iff e.resource.kind "Pod",
  eq_iff "PersistentVolumeClaim" "Pod",
)
