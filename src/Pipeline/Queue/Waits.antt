-- ===== src/Pipeline/Queue/Waits.antt =====
-- internal/pipeline/queue/queues.go: `WaitForDrain` and `WaitForInflight`. A goroutine looks at the
-- queue each time it holds the lock and closes a channel once its condition fails; the caller selects
-- between that channel and a timer. Calls on the queue go on in between.
use wormsign.Common.{
  ◌≡◌, refl, ap, ◌∙◌, ◌⊎◌, inl, inr, Bool, true, false, not, ◌||◌, List, [], ◌∷◌, ◌++◌, Bool-cases,
  arith, any,
}
use wormsign.Pipeline.Queue.Defs.{PriorityQueue, still_draining, still_inflight}
use wormsign.Pipeline.Queue.History.{Op, Run, step, IsAccounted, step-IsAccounted}

-- What happens while a caller waits: a call of another goroutine, a look at the queue by the waiting
-- goroutine, and the end of the timeout.
pub data Moment (B : Type 0) : Type 0 where
  during : Op B → Moment B
  looks expires : Moment B

abbrev pub is_timeout : {B : Type 0} → Moment B → Bool
is_timeout expires = true
is_timeout _ = false

-- The queue, and whether the channel is closed and the timer has fired.
pub record Wait (B : Type 0) : Type 0 where
  pub so_far : Run B
  pub closed : Bool
  pub expired : Bool

-- What the `select` can return: when both cases are ready, either.
pub data Returns {B : Type 0} (w : Wait B) : Bool → Type 0 where
  in_time : w.closed ≡ true → Returns w true
  timed_out : w.expired ≡ true → Returns w false

module _ {B : Type 0} where
  unfoldable pub begin_wait : Run B → Wait B
  begin_wait r = record { so_far = r; closed = false; expired = false }

  -- The moments of a wait that goes on while the condition holds.
  unfoldable pub wait : (PriorityQueue B → Bool) → Wait B → List (Moment B) → Wait B
  wait still w [] = w
  wait still w (during o ∷ ms) = wait still (record w { so_far = step w.so_far o }) ms
  wait still w (looks ∷ ms) =
      wait still (record w { closed = w.closed || not (still w.so_far.queue) }) ms
  wait still w (expires ∷ ms) = wait still (record w { expired = true }) ms

  unfoldable pub wait_for_drain : Run B → List (Moment B) → Wait B
  wait_for_drain r ms = wait still_draining (begin_wait r) ms

  unfoldable pub wait_for_inflight : Run B → List (Moment B) → Wait B
  wait_for_inflight r ms = wait still_inflight (begin_wait r) ms

  pub wait_expired :
      (still : PriorityQueue B → Bool) (w : Wait B) (ms : List (Moment B))
      → (wait still w ms).expired ≡ true
      → (w.expired ≡ true) ⊎ (any is_timeout ms ≡ true)
  unfolding wait
  wait_expired still w [] e = inl e
  wait_expired still w (during o ∷ ms) e =
      elim (wait_expired still (record w { so_far = step w.so_far o }) ms e) [
        | inl before ↦ inl before
        | inr among ↦ inr among
      ]
  wait_expired still w (looks ∷ ms) e =
      elim (wait_expired still (record w { closed = w.closed || not (still w.so_far.queue) }) ms
        e) [ inl before ↦ inl before | inr among ↦ inr among ]
  wait_expired still w (expires ∷ ms) e = inr refl

  pub wait-IsAccounted :
      (still : PriorityQueue B → Bool) (w : Wait B) (ms : List (Moment B))
      → IsAccounted w.so_far
      → IsAccounted (wait still w ms).so_far
  unfolding wait
  wait-IsAccounted still w [] v = v
  wait-IsAccounted still w (during o ∷ ms) v =
      wait-IsAccounted still (record w { so_far = step w.so_far o }) ms
        (step-IsAccounted w.so_far o v)
  wait-IsAccounted still w (looks ∷ ms) v =
      wait-IsAccounted still (record w { closed = w.closed || not (still w.so_far.queue) }) ms v
  wait-IsAccounted still w (expires ∷ ms) v =
      wait-IsAccounted still (record w { expired = true }) ms v

  -- The look that closed the channel, and what it saw.
  abbrev pub SawEnd : (PriorityQueue B → Bool) → Wait B → List (Moment B) → Type 0
  SawEnd still w ms =
      (before : List (Moment B)) × (after : List (Moment B)) × (ms ≡ before ++ looks ∷ after)
      × (still (wait still w before).so_far.queue ≡ false)

  later-SawEnd :
      (still : PriorityQueue B → Bool) (w u : Wait B) (m : Moment B) (ms : List (Moment B))
      → ((before : List (Moment B)) → wait still w (m ∷ before) ≡ wait still u before)
      → SawEnd still u ms
      → SawEnd still w (m ∷ ms)
  later-SawEnd still w u m ms e (before, after, split, saw) =
      (m ∷ before, after, ap (λ l. m ∷ l) split, ap (λ x. still x.so_far.queue) (e before) ∙ saw)

  pub wait_closed :
      (still : PriorityQueue B → Bool) (w : Wait B) (ms : List (Moment B))
      → (wait still w ms).closed ≡ true
      → (w.closed ≡ true) ⊎ SawEnd still w ms
  unfolding wait
  wait_closed still w [] c = inl c
  wait_closed still w (during o ∷ ms) c =
      elim (wait_closed still (record w { so_far = step w.so_far o }) ms c) [
        | inl already ↦ inl already
        | inr saw ↦ inr (later-SawEnd still w _ (during o) ms (λ b. refl) saw)
      ]
  wait_closed still w (looks ∷ ms) c =
      elim (wait_closed still (record w { closed = w.closed || not (still w.so_far.queue) }) ms c) [
        | inl by_now ↦ elim (Bool-cases w.closed) [
          | inl already ↦ inl already
          | inr not_yet ↦ inr ([], ms, refl, ground arith)
        ]
        | inr saw ↦ inr (later-SawEnd still w _ looks ms (λ b. refl) saw)
      ]
  wait_closed still w (expires ∷ ms) c =
      elim (wait_closed still (record w { expired = true }) ms c) [
        | inl already ↦ inl already
        | inr saw ↦ inr (later-SawEnd still w _ expires ms (λ b. refl) saw)
      ]
