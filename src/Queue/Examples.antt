-- ===== src/Queue/Examples.antt =====
-- A queue of two slots.
use paper_breakage_analysis.Base.{ℕ, ◌≡◌, refl, false, List, [], ◌∷◌, some, none}
use paper_breakage_analysis.Base.Integers.{pos}
use paper_breakage_analysis.Queue.{
  BoundedQueue, EnqueueStatus, DequeueStatus, new_queue, push, append, skip_oldest, begin_wait,
  finish_wait, pop_frame, close,
}
use paper_breakage_analysis.Queue.Fifo.{Call, Answer, answers, fifo_answers, step}
use paper_breakage_analysis.Queue.Refine.{answers-fifo_answers}
use paper_breakage_analysis.Queue.Account.{IsAccounted, run, run-IsAccounted}

abbrev empty_pair : BoundedQueue ℕ
empty_pair = record {
  slots = none ∷ none ∷ [];
  head = 0;
  size = 0;
  depth = 0;
  high_watermark = 0;
  enqueued = 0;
  dequeued = 0;
  skipped = 0;
  rejected_closed = 0;
  wait_timeouts = 0;
  wait_cancelled = 0;
  closed = false;
}

empty_pair_new : new_queue 2 ≡ some empty_pair
unfolding new_queue
empty_pair_new = refl

-- Three frames into two slots, a wait that begins empty-handed nowhere, and the end.
abbrev calls : List (Call ℕ)
calls =
    Call.push_frame 7
    ∷ Call.push_frame 8
    ∷ Call.push_frame 9
    ∷ Call.wait_begins false (pos 100)
    ∷ Call.close_queue
    ∷ Call.wait_ends false
    ∷ Call.push_frame 10
    ∷ Call.wait_begins false (pos 100)
    ∷ []

answers-fifo_answers_example :
    answers empty_pair calls ≡ fifo_answers 2 (record { items = []; closed = false }) calls
answers-fifo_answers_example = answers-fifo_answers 2 empty_pair calls empty_pair_new

-- The oldest frame is skipped, the others come out in order, and then the queue is closed.
calls_answered :
    answers empty_pair calls
    ≡ Answer.pushed EnqueueStatus.enqueued
      ∷ Answer.pushed EnqueueStatus.enqueued
      ∷ Answer.pushed EnqueueStatus.enqueued_after_skipping_oldest
      ∷ Answer.popped (record { status = DequeueStatus.frame; frame = some 8 })
      ∷ Answer.done
      ∷ Answer.popped (record { status = DequeueStatus.frame; frame = some 9 })
      ∷ Answer.pushed EnqueueStatus.rejected
      ∷ Answer.popped (record { status = DequeueStatus.closed; frame = none })
      ∷ []
unfolding answers step push append skip_oldest begin_wait finish_wait pop_frame close
calls_answered = refl

run-IsAccounted_example : IsAccounted (run empty_pair calls)
run-IsAccounted_example = run-IsAccounted 2 empty_pair calls empty_pair_new
