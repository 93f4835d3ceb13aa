-- ===== src/Pipeline/Queue/Refinement.antt =====
-- internal/pipeline/queue/queues.go: the three queues implement one list, ordered by severity and,
-- within a severity, by arrival.
use mathlib.Core.List.{append_assoc}
use wormsign.Common.{
  ℕ, zero, suc, ◌+◌, ◌≤◌, ◌<◌, ◌≡◌, refl, ap, String, ◌∙◌, ◌⊎◌, inl, inr, List, [], ◌∷◌, ◌++◌, none,
  some, leb, if◌then◌else◌, length, length-append, All, Bool-cases, arith,
}
use wormsign.Pipeline.Queue.Defs.{
  AnalysisItem, PriorityQueue, blocked, got, drained, severity_index, append_at, take_first,
  total_from, join, new_priority_queue, total_len, add, get,
}

module _ {B : Type 0} where
  abbrev pub index : AnalysisItem B → ℕ
  index item = severity_index item.severity

  -- The abstract queue: what waits, in the order of service.
  abbrev pub view : PriorityQueue B → List (AnalysisItem B)
  view pq = join pq.queues

  -- After all that is at least as urgent, before the rest.
  unfoldable pub insert_stable : AnalysisItem B → List (AnalysisItem B) → List (AnalysisItem B)
  insert_stable x [] = x ∷ []
  insert_stable x (y ∷ ys) = if leb (index y) (index x) then y ∷ insert_stable x ys else x ∷ y ∷ ys

  -- Entry i holds items of index n + i alone.
  abbrev pub Ranked : ℕ → List (List (AnalysisItem B)) → Type 0
  Ranked n [] = Unit {0}
  Ranked n (q ∷ qs) = All (λ x. index x ≡ n) q × Ranked (suc n) qs

  pub record IsRanked (pq : PriorityQueue B) : Type 0 where
    pub ranked : Ranked 0 pq.queues
    pub three : length pq.queues ≡ 3

  insert_stable_past :
      (x : AnalysisItem B) (n : ℕ) (q ys : List (AnalysisItem B))
      → All (λ y. index y ≡ n) q
      → n ≤ index x
      → insert_stable x (q ++ ys) ≡ q ++ insert_stable x ys
  unfolding insert_stable
  insert_stable_past x n [] ys a le = refl
  insert_stable_past x n (y ∷ q) ys a le = ground (arith, insert_stable_past x n q ys a.1 le)

  insert_stable_first :
      (x : AnalysisItem B) (n : ℕ) (qs : List (List (AnalysisItem B)))
      → Ranked n qs
      → index x < n
      → insert_stable x (join qs) ≡ x ∷ join qs
  unfolding insert_stable join
  insert_stable_first x n [] r lt = refl
  insert_stable_first x n ([] ∷ qs) r lt = insert_stable_first x (suc n) qs r.1 (omega arith)
  insert_stable_first x n ((y ∷ q) ∷ qs) r lt = ground arith

  join-append_at :
      (x : AnalysisItem B) (n k : ℕ) (qs : List (List (AnalysisItem B)))
      → Ranked n qs
      → index x ≡ n + k
      → k < length qs
      → join (append_at k x qs) ≡ insert_stable x (join qs)
  unfolding join append_at
  join-append_at x n k [] r e lt = absurd (omega arith)
  join-append_at x n zero (q ∷ qs) r e lt =
      rw
        (
          insert_stable_past x n q (join qs) r.0 (omega arith),
          insert_stable_first x (suc n) qs r.1 (omega arith),
        )
        (append_assoc q (x ∷ []) (join qs))
  join-append_at x n (suc k) (q ∷ qs) r e lt =
      rw (insert_stable_past x n q (join qs) r.0 (omega arith))
        (ap (λ t. q ++ t) (join-append_at x (suc n) k qs r.1 (omega arith) (omega arith)))

  length-append_at :
      (k : ℕ) (x : AnalysisItem B) (qs : List (List (AnalysisItem B)))
      → length (append_at k x qs) ≡ length qs
  unfolding append_at
  length-append_at k x [] = refl
  length-append_at zero x (q ∷ qs) = refl
  length-append_at (suc k) x (q ∷ qs) = ap suc (length-append_at k x qs)

  All-snoc :
      (x : AnalysisItem B) (n : ℕ) (q : List (AnalysisItem B))
      → All (λ y. index y ≡ n) q
      → index x ≡ n
      → All (λ y. index y ≡ n) (q ++ x ∷ [])
  All-snoc x n [] a e = (e, tt)
  All-snoc x n (y ∷ q) a e = (a.0, All-snoc x n q a.1 e)

  append_at-Ranked :
      (x : AnalysisItem B) (n k : ℕ) (qs : List (List (AnalysisItem B)))
      → Ranked n qs
      → index x ≡ n + k
      → Ranked n (append_at k x qs)
  unfolding append_at
  append_at-Ranked x n k [] r e = tt
  append_at-Ranked x n zero (q ∷ qs) r e = (All-snoc x n q r.0 (omega arith), r.1)
  append_at-Ranked x n (suc k) (q ∷ qs) r e =
      (r.0, append_at-Ranked x (suc n) k qs r.1 (omega arith))

  index-lt : (x : AnalysisItem B) → index x < 3
  index-lt x = ground arith

  -- A new queue is empty, and each of its three queues holds the severities that belong there.
  pub new-IsRanked : (name : String) → IsRanked (new_priority_queue name)
  unfolding new_priority_queue
  new-IsRanked name = record { ranked = (tt, (tt, (tt, tt))); three = refl }

  -- Before `ShutDown`, `Add` puts the item after all that waits and is at least as urgent, and before
  -- the rest; the name, the count in flight and the flag of the shutdown stay. After `ShutDown` it
  -- changes nothing at all. It keeps the queue well-formed.
  pub view-add :
      (pq : PriorityQueue B) (x : AnalysisItem B)
      → IsRanked pq
      → (view (add pq x) ≡ (if pq.shutdown then view pq else insert_stable x (view pq)))
        × (add pq x ≡ (if pq.shutdown then pq else record pq { queues = (add pq x).queues }))
        × IsRanked (add pq x)
  unfolding add
  view-add pq x v = elim (Bool-cases pq.shutdown) [
    | inl down ↦ simp down (refl, refl, v)
    | inr up ↦ simp up (
      join-append_at x 0 (index x) pq.queues v.ranked (omega arith)
          (omega (arith, index-lt x, v.three)),
      refl,
      record {
        ranked = append_at-Ranked x 0 (index x) pq.queues v.ranked (omega arith);
        three = length-append_at (index x) x pq.queues ∙ v.three;
      },
    )
  ]

  total_from-join :
      (t : ℕ) (qs : List (List (AnalysisItem B))) → total_from t qs ≡ t + length (join qs)
  unfolding total_from join
  total_from-join t [] = omega arith
  total_from-join t (q ∷ qs) =
      omega (arith, total_from-join (t + length q) qs, length-append q (join qs))

  -- `Len` counts what waits.
  pub total_len-view : (pq : PriorityQueue B) → total_len pq ≡ length (view pq)
  unfolding total_len
  total_len-view pq = omega (arith, total_from-join 0 pq.queues)

  abbrev TakesFirst : ℕ → List (List (AnalysisItem B)) → Type 0
  TakesFirst n qs =
      ((join qs ≡ []) × (take_first qs ≡ none))
      ⊎ ((x : AnalysisItem B) × (qs' : List (List (AnalysisItem B))) × (take_first qs
            ≡ some (x, qs'))
          × (join qs ≡ x ∷ join qs')
          × Ranked n qs'
          × (length qs' ≡ length qs))

  take_first-TakesFirst :
      (n : ℕ) (qs : List (List (AnalysisItem B))) → Ranked n qs → TakesFirst n qs
  unfolding take_first join
  take_first-TakesFirst n [] r = inl (refl, refl)
  take_first-TakesFirst n ((x ∷ q) ∷ qs) r = inr (x, q ∷ qs, refl, refl, (r.0.1, r.1), refl)
  take_first-TakesFirst n ([] ∷ qs) r = elim (take_first-TakesFirst (suc n) qs r.1) [
    | inl (e, t) ↦ inl (e, rw t)
    | inr (x, qs', t, e, r', l) ↦ inr (x, [] ∷ qs', rw t, e, (tt, r'), ap suc l)
  ]

  -- What `Get` does, by what waits.
  abbrev pub GetSpec : PriorityQueue B → List (AnalysisItem B) → Type 0
  GetSpec pq [] = get pq ≡ (pq, if pq.shutdown then drained else blocked)
  GetSpec pq (x ∷ rest) =
      (pq' : PriorityQueue B) × (get pq ≡ (pq', got x))
      × (view pq' ≡ rest)
      × (pq'.inflight ≡ pq.inflight + 1)
      × (pq'.shutdown ≡ pq.shutdown)
      × IsRanked pq'

  pub get_of_empty :
      (pq : PriorityQueue B)
      → total_len pq ≡ 0
      → get pq ≡ (pq, if pq.shutdown then drained else blocked)
  unfolding get
  get_of_empty pq e = ground arith

  get_of_items :
      (pq : PriorityQueue B) (x : AnalysisItem B) (qs : List (List (AnalysisItem B)))
      → 0 < total_len pq
      → take_first pq.queues ≡ some (x, qs)
      → get pq ≡ (record pq { queues = qs; inflight = pq.inflight + 1 }, got x)
  unfolding get
  get_of_items pq x qs lt e = ground arith

  -- `Get` on an empty queue waits, or reports the shutdown if there is one. On any other queue, shut
  -- down or not, it takes the first item in the order of service off the queue and counts it as in
  -- flight.
  pub get-GetSpec : (pq : PriorityQueue B) → IsRanked pq → GetSpec pq (view pq)
  get-GetSpec pq v = elim (take_first-TakesFirst 0 pq.queues v.ranked) [
    | inl (e, t) ↦ rw e (get_of_empty pq (omega (arith, total_len-view pq, ap length e)))
    | inr (x, qs, t, e, r, l) ↦ rw e (
      record pq { queues = qs; inflight = pq.inflight + 1 },
      get_of_items pq x qs (omega (arith, total_len-view pq, ap length e)) t,
      refl,
      refl,
      refl,
      record { ranked = r; three = l ∙ v.three },
    )
  ]
