-- ===== src/Pipeline/Queue/History.antt =====
-- internal/pipeline/queue/queues.go: what holds after any sequence of calls.
use mathlib.Core.List.{append-nil, append_assoc}
use wormsign.Common.{
  ℕ, suc, ◌+◌, ◌≡◌, refl, sym, ap, ◌∙◌, inl, inr, List, [], ◌∷◌, ◌++◌, ltb, if◌then◌else◌, length,
  Bool-cases, arith, String, map,
}
use wormsign.Pipeline.Queue.Defs.{
  AnalysisItem, PriorityQueue, GetResult, blocked, got, drained, new_priority_queue, add, get, done,
  shut_down, drain, join,
}
use wormsign.Pipeline.Queue.Order.{
  of_index, of_index-append, of_index-insert_stable, view-IsOrdered,
}
use wormsign.Pipeline.Queue.Refinement.{
  view, insert_stable, Ranked, IsRanked, new-IsRanked, view-add, GetSpec, get-GetSpec,
}

-- The calls of producers, workers and the shutdown, in the order in which they take the lock.
pub data Op (B : Type 0) : Type 0 where
  adds : AnalysisItem B → Op B
  gets dones shuts drains : Op B

-- The queue, what it has accepted, what has left it by `Get` or `Drain`, and how many items were
-- given out by `Get` and how many of them were marked done, all in order.
pub record Run (B : Type 0) : Type 0 where
  pub queue : PriorityQueue B
  pub accepted : List (AnalysisItem B)
  pub taken : List (AnalysisItem B)
  pub served : ℕ
  pub finished : ℕ

module _ {B : Type 0} where
  unfoldable pub after_get : Run B → PriorityQueue B × GetResult B → Run B
  after_get r (pq, got x) = record r {
    queue = pq;
    taken = r.taken ++ x ∷ [];
    served = suc r.served;
  }
  after_get r (pq, blocked) = record r { queue = pq }
  after_get r (pq, drained) = record r { queue = pq }

  unfoldable pub step : Run B → Op B → Run B
  unfolding after_get
  step r (adds x) = record r {
    queue = add r.queue x;
    accepted = if r.queue.shutdown then r.accepted else r.accepted ++ x ∷ [];
  }
  step r gets = after_get r (get r.queue)
  step r dones = record r {
    queue = done r.queue;
    finished = if ltb 0 r.queue.inflight then suc r.finished else r.finished;
  }
  step r shuts = record r { queue = shut_down r.queue }
  step r drains =
      let (pq, items) = drain r.queue in record r { queue = pq; taken = r.taken ++ items }

  unfoldable pub run : Run B → List (Op B) → Run B
  run r [] = r
  run r (o ∷ os) = run (step r o) os

  unfoldable pub start : String → Run B
  start name = record {
    queue = new_priority_queue name;
    accepted = [];
    taken = [];
    served = 0;
    finished = 0;
  }

  -- Of each severity, what was accepted is what has left and then what waits, in the same order; and
  -- what is in flight is what was given out and not marked done.
  pub record IsAccounted (r : Run B) : Type 0 where
    pub ranked : IsRanked r.queue
    pub in_order : (k : ℕ) → of_index k r.accepted ≡ of_index k r.taken ++ of_index k (view r.queue)
    pub flight : r.queue.inflight + r.finished ≡ r.served

  start-IsAccounted : (name : String) → IsAccounted (start name)
  unfolding start new_priority_queue join
  start-IsAccounted name = record {
    ranked = new-IsRanked name;
    in_order = λ k. refl;
    flight = omega arith;
  }

  in_order_added :
      (r : Run B) (x : AnalysisItem B)
      → IsAccounted r
      → (k : ℕ)
      → of_index k (if r.queue.shutdown then r.accepted else r.accepted ++ x ∷ [])
        ≡ of_index k r.taken
          ++ of_index k (if r.queue.shutdown then view r.queue else insert_stable x (view r.queue))
  in_order_added r x v k = elim (Bool-cases r.queue.shutdown) [
    | inl down ↦ simp down (v.in_order k)
    | inr up ↦ simp up (
        rw
          (
            of_index-append k r.accepted (x ∷ []),
            v.in_order k,
            of_index-insert_stable k x (view r.queue) (view-IsOrdered r.queue v.ranked),
          )
          (simp append_assoc))
  ]

  inflight-add :
      (pq : PriorityQueue B) (x : AnalysisItem B) (n : ℕ)
      → (add pq x).inflight + n ≡ pq.inflight + n
  unfolding add
  inflight-add pq x n = ground arith

  taken_first :
      (k : ℕ) (taken : List (AnalysisItem B)) (x : AnalysisItem B) (rest : List (AnalysisItem B))
      → of_index k taken ++ of_index k (x ∷ rest) ≡ of_index k (taken ++ x ∷ []) ++ of_index k rest
  taken_first k taken x rest =
      rw (of_index-append k taken (x ∷ []), of_index-append k (x ∷ []) rest) (simp append_assoc)

  after_get_nothing :
      (r : Run B)
      → IsAccounted r
      → IsAccounted (after_get r (r.queue, if r.queue.shutdown then drained else blocked))
  unfolding after_get
  after_get_nothing r v = elim (Bool-cases r.queue.shutdown) [
    | inl down ↦ simp down v
    | inr up ↦ simp up v
  ]

  adds-IsAccounted :
      (r : Run B) (x : AnalysisItem B) → IsAccounted r → IsAccounted (step r (adds x))
  unfolding step
  adds-IsAccounted r x v =
      let (e, _, ranked) = view-add r.queue x v.ranked in
      record {
        ranked = ranked;
        in_order = λ k. rw e (in_order_added r x v k);
        flight = inflight-add r.queue x r.finished ∙ v.flight;
      }

  gets-IsAccounted : (r : Run B) → IsAccounted r → IsAccounted (step r gets)
  unfolding step after_get
  gets-IsAccounted r v = go (view r.queue) refl (get-GetSpec r.queue v.ranked)
    where
      go :
          (l : List (AnalysisItem B))
          → view r.queue ≡ l
          → GetSpec r.queue l
          → IsAccounted (after_get r (get r.queue))
      go [] e g = rw g (after_get_nothing r v)
      go (x ∷ rest) e (pq, g, left, flight, down, ranked) = rw g (record {
        ranked = ranked;
        in_order = λ k. rw left (v.in_order k ∙ rw e (taken_first k r.taken x rest));
        flight = omega (arith, v.flight);
      })

  done_keeps :
      (pq : PriorityQueue B) → IsRanked pq → (view (done pq) ≡ view pq) × IsRanked (done pq)
  unfolding done
  done_keeps pq v = elim (Bool-cases (ltb 0 pq.inflight)) [
    | inl e ↦ simp e (refl, record { ranked = v.ranked; three = v.three })
    | inr e ↦ simp e (refl, v)
  ]

  done_count :
      (pq : PriorityQueue B) (n served : ℕ)
      → pq.inflight + n ≡ served
      → (done pq).inflight + (if ltb 0 pq.inflight then suc n else n) ≡ served
  unfolding done
  done_count pq n served e = ground arith

  dones-IsAccounted : (r : Run B) → IsAccounted r → IsAccounted (step r dones)
  unfolding step
  dones-IsAccounted r v =
      let (same, ranked) = done_keeps r.queue v.ranked in
      record {
        ranked = ranked;
        in_order = λ k. rw same (v.in_order k);
        flight = done_count r.queue r.finished r.served v.flight;
      }

  pub emptied :
      (n : ℕ) (qs : List (List (AnalysisItem B)))
      → Ranked {B = B} n (map (λ q. []) qs)
        × (join {A = AnalysisItem B} (map (λ q. []) qs) ≡ [])
        × (length {A = List (AnalysisItem B)} (map (λ q. []) qs) ≡ length qs)
  unfolding join
  emptied n [] = (tt, refl, refl)
  emptied n (q ∷ qs) = let (r, e, l) = emptied (suc n) qs in ((tt, r), e, ap suc l)

  drains-IsAccounted : (r : Run B) → IsAccounted r → IsAccounted (step r drains)
  unfolding step drain
  drains-IsAccounted r v =
      let (ranked, e, l) = emptied 0 r.queue.queues in
      record {
        ranked = record { ranked = ranked; three = l ∙ v.ranked.three };
        in_order = λ k.
            rw (e, of_index-append k r.taken (view r.queue)) (v.in_order k ∙ sym (append-nil _));
        flight = v.flight;
      }

  pub step-IsAccounted : (r : Run B) (o : Op B) → IsAccounted r → IsAccounted (step r o)
  unfolding step shut_down
  step-IsAccounted r (adds x) v = adds-IsAccounted r x v
  step-IsAccounted r gets v = gets-IsAccounted r v
  step-IsAccounted r dones v = dones-IsAccounted r v
  step-IsAccounted r shuts v = record {
    ranked = record { ranked = v.ranked.ranked; three = v.ranked.three };
    in_order = v.in_order;
    flight = v.flight;
  }
  step-IsAccounted r drains v = drains-IsAccounted r v

  run_from-IsAccounted : (r : Run B) (os : List (Op B)) → IsAccounted r → IsAccounted (run r os)
  unfolding run
  run_from-IsAccounted r [] v = v
  run_from-IsAccounted r (o ∷ os) v = run_from-IsAccounted (step r o) os (step-IsAccounted r o v)

  -- After any calls on a new queue, for each severity index the items that were accepted are those
  -- that have left the queue followed by those that wait, in the order of arrival: none is lost,
  -- doubled or overtaken within its severity. And the items in flight are those that `Get` gave out
  -- less those that `Done` finished.
  pub run-IsAccounted : (name : String) (os : List (Op B)) → IsAccounted (run (start name) os)
  run-IsAccounted name os = run_from-IsAccounted (start name) os (start-IsAccounted name)
