-- ===== src/Pipeline/Queue/Order.antt =====
-- internal/pipeline/queue/queues.go: what waits is in the order of service.
use mathlib.Core.List.{append-nil}
use wormsign.Common.{
  ℕ, suc, ◌≤◌, ◌<◌, ◌≡◌, refl, sym, ap, ◌∙◌, Bool, List, [], ◌∷◌, ◌++◌, leb, if◌then◌else◌, All,
  ◌==◌, keep, arith, Bool-cases, inl, inr,
}
use wormsign.Pipeline.Queue.Defs.{
  AnalysisItem, PriorityQueue, GetResult, join, get, got, blocked, drained,
}
use wormsign.Pipeline.Queue.Refinement.{
  index, view, insert_stable, Ranked, IsRanked, GetSpec, get-GetSpec,
}

module _ {B : Type 0} where
  -- No item is more urgent than one before it.
  abbrev pub IsOrdered : List (AnalysisItem B) → Type 0
  IsOrdered [] = Unit {0}
  IsOrdered (x ∷ xs) = All (λ y. index x ≤ index y) xs × IsOrdered xs

  AtLeast-append :
      (n : ℕ) (q ys : List (AnalysisItem B))
      → All (λ y. index y ≡ n) q
      → All (λ y. n ≤ index y) ys
      → All (λ y. n ≤ index y) (q ++ ys)
  AtLeast-append n [] ys a b = b
  AtLeast-append n (y ∷ q) ys a b = (omega arith, AtLeast-append n q ys a.1 b)

  AtLeast-mono :
      (m n : ℕ) (ys : List (AnalysisItem B))
      → m ≤ n
      → All (λ y. n ≤ index y) ys
      → All (λ y. m ≤ index y) ys
  AtLeast-mono m n [] le a = tt
  AtLeast-mono m n (y ∷ ys) le a = (omega arith, AtLeast-mono m n ys le a.1)

  Ranked-join :
      (n : ℕ) (qs : List (List (AnalysisItem B))) → Ranked n qs → All (λ y. n ≤ index y) (join qs)
  unfolding join
  Ranked-join n [] r = tt
  Ranked-join n (q ∷ qs) r =
      AtLeast-append n q (join qs) r.0
        (AtLeast-mono n (suc n) (join qs) (omega arith) (Ranked-join (suc n) qs r.1))

  IsOrdered-append :
      (n : ℕ) (q ys : List (AnalysisItem B))
      → All (λ y. index y ≡ n) q
      → All (λ y. n ≤ index y) ys
      → IsOrdered ys
      → IsOrdered (q ++ ys)
  IsOrdered-append n [] ys a b o = o
  IsOrdered-append n (y ∷ q) ys a b o = (
    AtLeast-mono (index y) n (q ++ ys) (omega arith) (AtLeast-append n q ys a.1 b),
    IsOrdered-append n q ys a.1 b o,
  )

  join-IsOrdered : (n : ℕ) (qs : List (List (AnalysisItem B))) → Ranked n qs → IsOrdered (join qs)
  unfolding join
  join-IsOrdered n [] r = tt
  join-IsOrdered n (q ∷ qs) r =
      IsOrdered-append n q (join qs) r.0
        (AtLeast-mono n (suc n) (join qs) (omega arith) (Ranked-join (suc n) qs r.1))
        (join-IsOrdered (suc n) qs r.1)

  pub view-IsOrdered : (pq : PriorityQueue B) → IsRanked pq → IsOrdered (view pq)
  view-IsOrdered pq v = join-IsOrdered 0 pq.queues v.ranked

  -- The items of one severity index, in order.
  abbrev pub of_index : ℕ → List (AnalysisItem B) → List (AnalysisItem B)
  of_index k = keep (λ y. index y == k)

  pub of_index-append :
      (k : ℕ) (xs ys : List (AnalysisItem B))
      → of_index k (xs ++ ys) ≡ of_index k xs ++ of_index k ys
  of_index-append k [] ys = refl
  of_index-append k (x ∷ xs) ys = elim (Bool-cases (index x == k)) [
    | inl e ↦ rw e (ap (λ t. x ∷ t) (of_index-append k xs ys))
    | inr e ↦ rw e (of_index-append k xs ys)
  ]

  of_index_past :
      (k n : ℕ) (ys : List (AnalysisItem B))
      → k < n
      → All (λ y. n ≤ index y) ys
      → of_index k ys ≡ []
  of_index_past k n [] lt a = refl
  of_index_past k n (y ∷ ys) lt a = ground (arith, of_index_past k n ys lt a.1)

  of_index-cons :
      (k : ℕ) (x y : AnalysisItem B) (ys zs : List (AnalysisItem B))
      → of_index k zs ≡ of_index k ys ++ of_index k (x ∷ [])
      → of_index k (y ∷ zs) ≡ of_index k (y ∷ ys) ++ of_index k (x ∷ [])
  of_index-cons k x y ys zs e = elim (Bool-cases (index y == k)) [
    | inl same ↦ rw same (ap (λ t. y ∷ t) e)
    | inr other ↦ rw other e
  ]

  of_index_first :
      (k : ℕ) (x : AnalysisItem B) (ys : List (AnalysisItem B)) (n : ℕ)
      → index x < n
      → All (λ y. n ≤ index y) ys
      → of_index k (x ∷ ys) ≡ of_index k ys ++ of_index k (x ∷ [])
  of_index_first k x ys n lt a = elim (Bool-cases (index x == k)) [
    | inl same ↦ rw (same, of_index_past k n ys (ground arith) a) refl
    | inr other ↦ rw other (sym (append-nil (of_index k ys)))
  ]

  pub of_index-insert_stable :
      (k : ℕ) (x : AnalysisItem B) (ys : List (AnalysisItem B))
      → IsOrdered ys
      → of_index k (insert_stable x ys) ≡ of_index k ys ++ of_index k (x ∷ [])
  unfolding insert_stable
  of_index-insert_stable k x [] o = refl
  of_index-insert_stable k x (y ∷ ys) o = elim (Bool-cases (leb (index y) (index x))) [
    | inl past ↦
        rw past (of_index-cons k x y ys (insert_stable x ys) (of_index-insert_stable k x ys o.1))
    | inr here ↦ rw here (of_index_first k x (y ∷ ys) (index y) (ground arith) (omega arith, o.0))
  ]

  nothing_got :
      (pq pq' : PriorityQueue B) (x : AnalysisItem B) (b : Bool)
      → ¬ (
          ◌≡◌ {A = PriorityQueue B × GetResult B} (pq', got x) (pq, if b then drained else blocked))
  nothing_got pq pq' x b e = ground arith

  -- An item that comes out of the queue is at least as urgent as every item that still waits.
  pub get-most_urgent :
      (pq pq' : PriorityQueue B) (x : AnalysisItem B)
      → IsRanked pq
      → get pq ≡ (pq', got x)
      → All (λ y. index x ≤ index y) (view pq')
  get-most_urgent pq pq' x v e = first (view pq) (get-GetSpec pq v) (view-IsOrdered pq v)
    where
      first :
          (l : List (AnalysisItem B))
          → GetSpec pq l
          → IsOrdered l
          → All (λ y. index x ≤ index y) (view pq')
      first [] g o = absurd (nothing_got pq pq' x pq.shutdown (sym e ∙ g))
      first (y ∷ rest) (pq'', g, left, _, _, _) o =
          let same : x ≡ y = cc in
          let left' : view pq' ≡ rest = ap view (ap (λ p. p.0) (sym e ∙ g)) ∙ left in
          rw (left', same) o.0
