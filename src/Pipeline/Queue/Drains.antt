-- ===== src/Pipeline/Queue/Drains.antt =====
-- internal/pipeline/queue/queues.go: what an answer of `WaitForDrain` means.
use mathlib.Core.List.{append-nil}
use mathlib.Core.Bool.{true≢false}
use wormsign.Common.{
  ℕ, ◌≡◌, refl, ap, ◌∙◌, inl, inr, Bool, true, false, not, ◌||◌, List, [], ◌∷◌, ◌++◌, String,
  length, Bool-cases, arith, any, sym, subst,
}
use wormsign.Pipeline.Queue.Defs.{
  AnalysisItem, PriorityQueue, total_len, add, get, done, shut_down, drain, still_draining,
}
use wormsign.Pipeline.Queue.Order.{of_index}
use wormsign.Pipeline.Queue.Refinement.{view, total_len-view, GetSpec, get-GetSpec, get_of_empty}
use wormsign.Pipeline.Queue.History.{
  Op, adds, gets, dones, shuts, drains, Run, after_get, step, run, start, IsAccounted,
  run-IsAccounted, step-IsAccounted, emptied,
}
use wormsign.Pipeline.Queue.Waits.{
  Moment, during, looks, expires, is_timeout, Wait, Returns, in_time, timed_out, begin_wait, wait,
  wait_for_drain, wait_expired, wait-IsAccounted, wait_closed,
}

module _ {B : Type 0} where
  still_draining_exit :
      (pq : PriorityQueue B) → still_draining pq ≡ false → (pq.inflight ≡ 0) × (total_len pq ≡ 0)
  unfolding still_draining
  still_draining_exit pq e = ground arith

  get-down : (r : Run B) → IsAccounted r → (step r gets).queue.shutdown ≡ r.queue.shutdown
  unfolding step after_get
  get-down r v = go (view r.queue) (get-GetSpec r.queue v.ranked)
    where
      go :
          (l : List (AnalysisItem B))
          → GetSpec r.queue l
          → (after_get r (get r.queue)).queue.shutdown ≡ r.queue.shutdown
      go [] g =
          rw g (elim (Bool-cases r.queue.shutdown) [
            | inl down ↦ simp down refl
            | inr up ↦ simp up refl
          ])
      go (x ∷ rest) (pq, g, left, flight, down, ranked) = rw g down

  step-down :
      (r : Run B) (o : Op B)
      → IsAccounted r
      → r.queue.shutdown ≡ true
      → (step r o).queue.shutdown ≡ true
  unfolding step add done shut_down drain
  step-down r (adds x) v d = ground arith
  step-down r gets v d = get-down r v ∙ d
  step-down r dones v d = ground arith
  step-down r shuts v d = refl
  step-down r drains v d = d

  get-idle :
      (r : Run B)
      → r.queue.shutdown ≡ true
      → total_len r.queue ≡ 0
      → ((step r gets).queue ≡ r.queue)
  unfolding step after_get
  get-idle r d t = rw (get_of_empty r.queue t, d) refl

  abbrev IsIdle : PriorityQueue B → Type 0
  IsIdle pq = (pq.inflight ≡ 0) × (total_len pq ≡ 0)

  -- A queue that is shut down and idle stays idle.
  step-IsIdle :
      (r : Run B) (o : Op B) → r.queue.shutdown ≡ true → IsIdle r.queue → IsIdle (step r o).queue
  unfolding step add done shut_down drain total_len
  step-IsIdle r (adds x) d (i, t) = ground arith
  step-IsIdle r gets d (i, t) = subst IsIdle (sym (get-idle r d t)) (i, t)
  step-IsIdle r dones d (i, t) = ground arith
  step-IsIdle r shuts d (i, t) = (i, t)
  step-IsIdle r drains d (i, t) =
      let (ranked, e, l) = emptied 0 r.queue.queues in
      (i, total_len-view (step r drains).queue ∙ ap length e)

  -- What holds at every moment of a wait on a queue that is shut down.
  record IsSettling (w : Wait B) : Type 0 where
    accounted : IsAccounted w.so_far
    down : w.so_far.queue.shutdown ≡ true
    idle : w.closed ≡ true → IsIdle w.so_far.queue

  looked :
      (w : Wait B)
      → (w.closed ≡ true → IsIdle w.so_far.queue)
      → w.closed || not (still_draining w.so_far.queue) ≡ true
      → IsIdle w.so_far.queue
  looked w idle e = elim (Bool-cases w.closed) [
    | inl closed ↦ idle closed
    | inr open_yet ↦ still_draining_exit w.so_far.queue (ground arith)
  ]

  wait-IsSettling :
      (w : Wait B) (ms : List (Moment B)) → IsSettling w → IsSettling (wait still_draining w ms)
  unfolding wait
  wait-IsSettling w [] v = v
  wait-IsSettling w (during o ∷ ms) v =
      wait-IsSettling (record w { so_far = step w.so_far o }) ms
        (record {
          accounted = step-IsAccounted w.so_far o v.accounted;
          down = step-down w.so_far o v.accounted v.down;
          idle = λ c. step-IsIdle w.so_far o v.down (v.idle c);
        })
  wait-IsSettling w (looks ∷ ms) v =
      wait-IsSettling (record w { closed = w.closed || not (still_draining w.so_far.queue) }) ms
        (record { accounted = v.accounted; down = v.down; idle = looked w v.idle })
  wait-IsSettling w (expires ∷ ms) v =
      wait-IsSettling (record w { expired = true }) ms
        (record { accounted = v.accounted; down = v.down; idle = v.idle })

  nil_of_length : (l : List (AnalysisItem B)) → length l ≡ 0 → l ≡ []
  nil_of_length [] e = refl
  nil_of_length (x ∷ l) e = absurd (omega arith)

  -- All that was accepted of each severity has left the queue, in the order of arrival, and all that
  -- `Get` gave out is finished.
  abbrev pub AllDone : Run B → Type 0
  AllDone r = ((k : ℕ) → of_index k r.accepted ≡ of_index k r.taken) × (r.finished ≡ r.served)

  idle-AllDone : (r : Run B) → IsAccounted r → IsIdle r.queue → AllDone r
  idle-AllDone r v (idle, empty) =
      let none_left : view r.queue ≡ [] =
        nil_of_length _ (omega (arith, empty, total_len-view r.queue)) in
      (λ k. v.in_order k ∙ rw none_left (append-nil _), omega (arith, idle, v.flight))

  -- What a wait that returns `true` promises, and what one that returns `false` has seen.
  abbrev pub AfterWait : Run B → List (Moment B) → Bool → Type 0
  AfterWait r ms true =
      (before : List (Moment B)) × (after : List (Moment B)) × (ms ≡ before ++ looks ∷ after)
      × AllDone (wait_for_drain r before).so_far
  AfterWait r ms false = any is_timeout ms ≡ true

  -- Let any calls be made on a new queue, and then `WaitForDrain`, with any calls, looks at the queue
  -- and the timer in any order while it waits. If it returns `true`, then at one of its looks all that
  -- had been accepted of each severity had left the queue, in the order of arrival, and all that `Get`
  -- had given out was finished; it returns `false` only if the timeout has elapsed.
  pub drained_all :
      (name : String) (os : List (Op B)) (ms : List (Moment B)) (answer : Bool)
      → Returns (wait_for_drain (run (start name) os) ms) answer
      → AfterWait (run (start name) os) ms answer
  unfolding wait_for_drain begin_wait
  drained_all name os ms true (in_time c) =
      let r = run (start name) os in
      elim (wait_closed still_draining (begin_wait r) ms c) [
        | inl already ↦ absurd (true≢false (sym already))
        | inr (before, after, split, saw) ↦
            let last = (wait still_draining (begin_wait r) before).so_far in
            (
              before,
              after,
              split,
              idle-AllDone last
                  (wait-IsAccounted still_draining (begin_wait r) before (run-IsAccounted name os))
                  (still_draining_exit last.queue saw),
            )
      ]
  drained_all name os ms false (timed_out e) =
      elim (wait_expired still_draining (begin_wait (run (start name) os)) ms e) [
        | inl before ↦ absurd (true≢false (sym before))
        | inr among ↦ among
      ]

  -- If the queue was shut down before `WaitForDrain` is called, and it returns `true`, then at the
  -- return too, whatever was called in between, all that was ever accepted has left the queue, in the
  -- order of arrival, and all that `Get` gave out is finished.
  pub drained_for_good :
      (name : String) (os : List (Op B)) (ms : List (Moment B))
      → (run (start name) os).queue.shutdown ≡ true
      → Returns (wait_for_drain (run (start name) os) ms) true
      → AllDone (wait_for_drain (run (start name) os) ms).so_far
  unfolding wait_for_drain begin_wait
  drained_for_good name os ms d (in_time c) =
      let r = run (start name) os in
      let v = wait-IsSettling (begin_wait r) ms (record {
        accounted = run-IsAccounted name os;
        down = d;
        idle = λ e. absurd (true≢false (sym e));
      }) in
      idle-AllDone (wait still_draining (begin_wait r) ms).so_far v.accounted (v.idle c)
