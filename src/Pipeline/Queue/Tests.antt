-- ===== src/Pipeline/Queue/Tests.antt =====
-- The priority queue with a warning, a critical item and another warning.
use wormsign.Common.{ℕ, ◌≡◌, ◌≤◌, refl, true, false, List, [], ◌∷◌, All}
use wormsign.Model.{critical, warning}
use wormsign.Pipeline.Queue.Defs.{
  AnalysisItem, PriorityQueue, got, new_priority_queue, append_at, take_first, total_len, add, get,
  done, shut_down, still_draining,
}
use wormsign.Pipeline.Queue.Refinement.{
  IsRanked, index, view, insert_stable, GetSpec, view-add, get-GetSpec,
}
use wormsign.Pipeline.Queue.Order.{get-most_urgent}
use wormsign.Pipeline.Queue.History.{
  Op, adds, gets, dones, shuts, run, start, IsAccounted, run-IsAccounted, step, after_get,
}
use wormsign.Pipeline.Queue.Drains.{AfterWait, AllDone, drained_all, drained_for_good}
use wormsign.Pipeline.Queue.Waits.{
  Moment, during, looks, expires, Returns, in_time, timed_out, begin_wait, wait, wait_for_drain,
  wait_for_inflight,
}

abbrev item : ℕ → AnalysisItem ℕ
item n = record { bundle = n; severity = warning }

abbrev urgent : AnalysisItem ℕ
urgent = record { bundle = 7; severity = critical }

abbrev waiting : PriorityQueue ℕ
waiting = record {
  name = "analysis";
  queues = (urgent ∷ []) ∷ (item 1 ∷ item 2 ∷ []) ∷ [] ∷ [];
  shutdown = false;
  inflight = 0;
}

abbrev waiting_ranked : IsRanked waiting
waiting_ranked = record { ranked = ((refl, tt), ((refl, (refl, tt)), (tt, tt))); three = refl }

view-add_example :
    (view (add waiting (item 3)) ≡ insert_stable (item 3) (view waiting))
    × (add waiting (item 3) ≡ record waiting { queues = (add waiting (item 3)).queues })
    × IsRanked (add waiting (item 3))
view-add_example = view-add waiting (item 3) waiting_ranked

get-GetSpec_example : GetSpec waiting (view waiting)
get-GetSpec_example = get-GetSpec waiting waiting_ranked

abbrev taken : PriorityQueue ℕ
taken = record waiting { queues = [] ∷ (item 1 ∷ item 2 ∷ []) ∷ [] ∷ []; inflight = 1 }

get-urgent : get waiting ≡ (taken, got urgent)
unfolding get total_len take_first
get-urgent = refl

get-most_urgent_example : All (λ y. index urgent ≤ index y) (view taken)
get-most_urgent_example = get-most_urgent waiting taken urgent waiting_ranked get-urgent

abbrev calls : List (Op ℕ)
calls = adds (item 1) ∷ adds urgent ∷ gets ∷ dones ∷ gets ∷ dones ∷ []

run-IsAccounted_example : IsAccounted (run (start "analysis") calls)
run-IsAccounted_example = run-IsAccounted "analysis" calls

abbrev closing_calls : List (Op ℕ)
closing_calls = adds (item 1) ∷ adds urgent ∷ gets ∷ shuts ∷ []

abbrev moments : List (Moment ℕ)
moments =
    looks
    ∷ during dones
    ∷ during gets
    ∷ looks
    ∷ during dones
    ∷ looks
    ∷ during (adds (item 2))
    ∷ expires
    ∷ []

drains_in_time :
    Returns (wait_for_drain (run (start {B = ℕ} "analysis") closing_calls) moments) true
unfolding wait_for_drain wait begin_wait still_draining run step after_get start new_priority_queue
    add append_at get total_len take_first done shut_down
drains_in_time = in_time refl

shut : (run (start {B = ℕ} "analysis") closing_calls).queue.shutdown ≡ true
unfolding run step after_get start new_priority_queue add append_at get total_len take_first
    shut_down
shut = refl

drained_all_example : AfterWait (run (start {B = ℕ} "analysis") closing_calls) moments true
drained_all_example = drained_all "analysis" closing_calls moments true drains_in_time

drained_for_good_example :
    AllDone (wait_for_drain (run (start {B = ℕ} "analysis") closing_calls) moments).so_far
drained_for_good_example = drained_for_good "analysis" closing_calls moments shut drains_in_time

-- With an item in flight, the wait ends by the timeout.
out_of_time :
    Returns
      (wait_for_inflight (run (start {B = ℕ} "analysis") closing_calls) (looks ∷ expires ∷ []))
      false
unfolding wait_for_inflight wait begin_wait
out_of_time = timed_out refl
