-- ===== src/Pipeline/Queue/Defs.antt =====
-- internal/pipeline/queue/queues.go: `PriorityQueue`. Every method holds the lock throughout, but for
-- the waits: a call of `Get` that would wait is `blocked`, and leaves the queue as it is.
use wormsign.Common.{
  ℕ, zero, suc, ◌+◌, ◌-◌, String, Bool, true, false, not, ◌&&◌, ◌||◌, List, [], ◌∷◌, ◌++◌, Option,
  none, some, map, ltb, ◌==◌, if◌then◌else◌, length,
}
use wormsign.Model.{Severity, critical, warning}

pub record AnalysisItem (B : Type 0) : Type 0 where
  pub bundle : B
  pub severity : Severity

-- `queues` has three entries: critical, warning, and all else.
pub record PriorityQueue (B : Type 0) : Type 0 where
  pub name : String
  pub queues : List (List (AnalysisItem B))
  pub shutdown : Bool
  pub inflight : ℕ

pub data GetResult (B : Type 0) : Type 0 where
  blocked : GetResult B
  got : AnalysisItem B → GetResult B
  drained : GetResult B

abbrev pub severity_index : Severity → ℕ
severity_index critical = 0
severity_index warning = 1
severity_index _ = 2

-- `qs[i] = append(qs[i], x)`
unfoldable pub append_at {ℓ} : {A : Type ℓ} → ℕ → A → List (List A) → List (List A)
append_at i x [] = []
append_at zero x (q ∷ qs) = (q ++ x ∷ []) ∷ qs
append_at (suc i) x (q ∷ qs) = q ∷ append_at i x qs

-- The loop of `Get`: the first entry that is not empty loses its first item.
unfoldable pub take_first {ℓ} : {A : Type ℓ} → List (List A) → Option (A × List (List A))
take_first [] = none
take_first ((x ∷ q) ∷ qs) = some (x, q ∷ qs)
take_first ([] ∷ qs) = elim (take_first qs) [ none ↦ none | some (x, qs') ↦ some (x, [] ∷ qs') ]

-- The loop of `totalLen`, from the total so far.
unfoldable pub total_from {ℓ} : {A : Type ℓ} → ℕ → List (List A) → ℕ
total_from total [] = total
total_from total (q ∷ qs) = total_from (total + length q) qs

-- The loop of `Drain`: the items in priority order.
unfoldable pub join {ℓ} : {A : Type ℓ} → List (List A) → List A
join [] = []
join (q ∷ qs) = q ++ join qs

module _ {B : Type 0} where
  unfoldable pub new_priority_queue : String → PriorityQueue B
  new_priority_queue name = record {
    name = name;
    queues = [] ∷ [] ∷ [] ∷ [];
    shutdown = false;
    inflight = 0;
  }

  unfoldable pub total_len : PriorityQueue B → ℕ
  unfolding total_from
  total_len pq = total_from 0 pq.queues

  unfoldable pub add : PriorityQueue B → AnalysisItem B → PriorityQueue B
  add pq item =
      if pq.shutdown
      then pq
      else record pq { queues = append_at (severity_index item.severity) item pq.queues }

  unfoldable pub get : PriorityQueue B → PriorityQueue B × GetResult B
  get pq =
      if (total_len pq == 0) && not pq.shutdown
      then (pq, blocked)
      else if pq.shutdown && (total_len pq == 0)
      then (pq, drained)
      else elim (take_first pq.queues) [
        | none ↦ (pq, drained)
        | some (item, queues) ↦
            (record pq { queues = queues; inflight = pq.inflight + 1 }, got item)
      ]

  unfoldable pub done : PriorityQueue B → PriorityQueue B
  done pq = if ltb 0 pq.inflight then record pq { inflight = pq.inflight - 1 } else pq

  unfoldable pub shut_down : PriorityQueue B → PriorityQueue B
  shut_down pq = record pq { shutdown = true }

  unfoldable pub shutting_down : PriorityQueue B → Bool
  shutting_down pq = pq.shutdown

  unfoldable pub drain : PriorityQueue B → PriorityQueue B × List (AnalysisItem B)
  unfolding join
  drain pq = (record pq { queues = map (λ q. []) pq.queues }, join pq.queues)

  unfoldable pub in_flight : PriorityQueue B → ℕ
  in_flight pq = pq.inflight

  -- The conditions on which the waits of `WaitForDrain` and `WaitForInflight` go on.
  unfoldable pub still_draining : PriorityQueue B → Bool
  still_draining pq = ltb 0 pq.inflight || ltb 0 (total_len pq)

  unfoldable pub still_inflight : PriorityQueue B → Bool
  still_inflight pq = ltb 0 pq.inflight
