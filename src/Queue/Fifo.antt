-- ===== src/Queue/Fifo.antt =====
-- What a queue promises: a list of at most `capacity` frames that a new frame joins at the end, at the
-- cost of the oldest where the list is full, and that is read from the front.
use paper_breakage_analysis.Base.{
  ℕ, Bool, true, Option, none, some, List, [], ◌∷◌, ◌++◌, length, drop, ◌==◌, if◌then◌else◌,
}
use paper_breakage_analysis.Base.Integers.{ℤ, pos, ltb_ℤ}
use paper_breakage_analysis.Queue.{
  EnqueueStatus, DequeueStatus, DequeueResult, BoundedQueue, empty_handed, push, begin_wait,
  finish_wait, close,
}

pub record Fifo {ℓ} (A : Type ℓ) : Type ℓ where
  pub items : List A
  pub closed : Bool

-- The calls of a queue in the order in which they take its lock.
pub data Call {ℓ} (A : Type ℓ) : Type ℓ where
  push_frame : A → Call A
  wait_begins : Bool → ℤ → Call A
  wait_ends : Bool → Call A
  close_queue : Call A

pub data Answer {ℓ} (A : Type ℓ) : Type ℓ where
  pushed : EnqueueStatus → Answer A
  popped : DequeueResult A → Answer A
  waits : Answer A
  done : Answer A

module _ {ℓ} {A : Type ℓ} where
  unfoldable pub fifo_push : ℕ → Fifo A → A → Fifo A × EnqueueStatus
  fifo_push capacity f a =
      if f.closed
      then (f, EnqueueStatus.rejected)
      else if length f.items == capacity
      then (
        record f { items = drop 1 f.items ++ (a ∷ []) },
        EnqueueStatus.enqueued_after_skipping_oldest,
      )
      else (record f { items = f.items ++ (a ∷ []) }, EnqueueStatus.enqueued)

  -- The oldest frame, or what an empty list answers.
  unfoldable pub take_first : Fifo A → List A → DequeueStatus → Fifo A × DequeueResult A
  take_first f [] otherwise =
      (f, empty_handed (if f.closed then DequeueStatus.closed else otherwise))
  take_first f (a ∷ rest) otherwise =
      (record f { items = rest }, record { status = DequeueStatus.frame; frame = some a })

  unfoldable pub take_or_wait : Fifo A → List A → ℤ → Option (Fifo A × DequeueResult A)
  unfolding take_first
  take_or_wait f [] limit =
      if f.closed
      then some (f, empty_handed DequeueStatus.closed)
      else if ltb_ℤ (pos 0) limit
      then none
      else some (f, empty_handed DequeueStatus.timeout)
  take_or_wait f (a ∷ rest) limit = some (take_first f (a ∷ rest) DequeueStatus.timeout)

  unfoldable pub fifo_begin : Fifo A → Bool → ℤ → Option (Fifo A × DequeueResult A)
  unfolding take_or_wait
  fifo_begin f stop limit =
      if stop then some (f, empty_handed DequeueStatus.stopped) else take_or_wait f f.items limit

  unfoldable pub fifo_finish : Fifo A → Bool → Fifo A × DequeueResult A
  unfolding take_first
  fifo_finish f stop =
      if stop
      then (f, empty_handed DequeueStatus.stopped)
      else take_first f f.items DequeueStatus.timeout

  -- A call of a wait that goes on changes nothing.
  abbrev pub or_waits {κ} : {Q : Type κ} → Q → Option (Q × DequeueResult A) → Q × Answer A
  or_waits q none = (q, Answer.waits)
  or_waits q (some (q', r)) = (q', Answer.popped r)

  unfoldable pub fifo_step : ℕ → Fifo A → Call A → Fifo A × Answer A
  unfolding fifo_push fifo_begin fifo_finish
  fifo_step capacity f (Call.push_frame a) =
      let pushed = fifo_push capacity f a in (pushed.0, Answer.pushed pushed.1)
  fifo_step capacity f (Call.wait_begins stop limit) = or_waits f (fifo_begin f stop limit)
  fifo_step capacity f (Call.wait_ends stop) =
      let popped = fifo_finish f stop in (popped.0, Answer.popped popped.1)
  fifo_step capacity f Call.close_queue = (record f { closed = true }, Answer.done)

  unfoldable pub step : BoundedQueue A → Call A → BoundedQueue A × Answer A
  step q (Call.push_frame a) = let pushed = push q a in (pushed.0, Answer.pushed pushed.1)
  step q (Call.wait_begins stop limit) = or_waits q (begin_wait q stop limit)
  step q (Call.wait_ends stop) =
      let popped = finish_wait q stop in (popped.0, Answer.popped popped.1)
  step q Call.close_queue = (close q, Answer.done)

  unfoldable pub fifo_answers : ℕ → Fifo A → List (Call A) → List (Answer A)
  fifo_answers capacity f [] = []
  fifo_answers capacity f (c ∷ cs) =
      let next = fifo_step capacity f c in next.1 ∷ fifo_answers capacity next.0 cs

  unfoldable pub answers : BoundedQueue A → List (Call A) → List (Answer A)
  answers q [] = []
  answers q (c ∷ cs) = let next = step q c in next.1 ∷ answers next.0 cs
