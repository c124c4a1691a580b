-- ===== src/Queue.antt =====
-- The bounded queue that src/camera/src/acquisition.cpp (`AcquisitionQueue`) and
-- src/pipeline/src/pipeline.cpp (`AlgorithmQueue`) both write out, for frames of any type: a ring of
-- slots that skips the oldest frame when it is full. A call of `wait_pop` is the part before the wait
-- and the part after it, both under the lock.
use paper_breakage_analysis.Base.{
  ℕ, ◌+◌, ◌-◌, ◌%◌, max, Bool, true, false, not, ◌&&◌, ◌||◌, Option, none, some, List, length, set,
  get_or, replicate, ltb, ◌==◌, if◌then◌else◌, inc_u64,
}
use paper_breakage_analysis.Base.Integers.{ℤ, pos, ltb_ℤ}
pub mod Contents
pub mod Fifo
pub mod Refine
pub mod Account
mod Examples

pub data EnqueueStatus : Type 0 where
  enqueued enqueued_after_skipping_oldest rejected : EnqueueStatus

pub data DequeueStatus : Type 0 where
  frame timeout stopped closed : DequeueStatus

pub record DequeueResult {ℓ} (A : Type ℓ) : Type ℓ where
  pub status : DequeueStatus
  pub frame : Option A

pub record BoundedQueue {ℓ} (A : Type ℓ) : Type ℓ where
  pub slots : List (Option A)
  pub head : ℕ
  pub size : ℕ
  pub depth : ℕ
  pub high_watermark : ℕ
  pub enqueued : ℕ
  pub dequeued : ℕ
  pub skipped : ℕ
  pub rejected_closed : ℕ
  pub wait_timeouts : ℕ
  pub wait_cancelled : ℕ
  pub closed : Bool

module _ {ℓ} {A : Type ℓ} where
  -- The constructor refuses a capacity of zero.
  unfoldable pub new_queue : ℕ → Option (BoundedQueue A)
  new_queue capacity =
      if capacity == 0
      then none
      else some (record {
        slots = replicate capacity none;
        head = 0;
        size = 0;
        depth = 0;
        high_watermark = 0;
        enqueued = 0;
        dequeued = 0;
        skipped = 0;
        rejected_closed = 0;
        wait_timeouts = 0;
        wait_cancelled = 0;
        closed = false;
      })

  abbrev pub is_full : BoundedQueue A → Bool
  is_full q = q.size == length q.slots

  unfoldable pub skip_oldest : BoundedQueue A → BoundedQueue A
  skip_oldest q = record q {
    slots = set q.slots q.head none;
    head = (q.head + 1) % length q.slots;
    size = q.size - 1;
    skipped = inc_u64 q.skipped;
  }

  unfoldable pub append : BoundedQueue A → A → BoundedQueue A
  append q a =
      let size = q.size + 1 in
      record q {
        slots = set q.slots ((q.head + q.size) % length q.slots) (some a);
        size = size;
        depth = size;
        enqueued = inc_u64 q.enqueued;
        high_watermark = max q.high_watermark size;
      }

  unfoldable pub push : BoundedQueue A → A → BoundedQueue A × EnqueueStatus
  push q a =
      if q.closed
      then (record q { rejected_closed = inc_u64 q.rejected_closed }, EnqueueStatus.rejected)
      else if is_full q
      then (append (skip_oldest q) a, EnqueueStatus.enqueued_after_skipping_oldest)
      else (append q a, EnqueueStatus.enqueued)

  unfoldable pub pop_frame : BoundedQueue A → BoundedQueue A × DequeueResult A
  pop_frame q = (
    record q {
      slots = set q.slots q.head none;
      head = (q.head + 1) % length q.slots;
      size = q.size - 1;
      depth = q.size - 1;
      dequeued = inc_u64 q.dequeued;
    },
    record { status = DequeueStatus.frame; frame = get_or q.slots q.head none },
  )

  abbrev pub empty_handed : DequeueStatus → DequeueResult A
  empty_handed status = record { status = status; frame = none }

  abbrev pub cancelled : BoundedQueue A → BoundedQueue A × DequeueResult A
  cancelled q =
      (record q { wait_cancelled = inc_u64 q.wait_cancelled }, empty_handed DequeueStatus.stopped)

  abbrev pub timed_out : BoundedQueue A → BoundedQueue A × DequeueResult A
  timed_out q =
      (record q { wait_timeouts = inc_u64 q.wait_timeouts }, empty_handed DequeueStatus.timeout)

  abbrev pub found_closed : BoundedQueue A → BoundedQueue A × DequeueResult A
  found_closed q = (q, empty_handed DequeueStatus.closed)

  -- `wait_pop` up to the wait: an answer, or none where it waits.
  unfoldable pub begin_wait : BoundedQueue A → Bool → ℤ → Option (BoundedQueue A × DequeueResult A)
  begin_wait q stop_requested limit =
      if stop_requested
      then some (cancelled q)
      else if ltb 0 q.size
      then some (pop_frame q)
      else if q.closed
      then some (found_closed q)
      else if ltb_ℤ (pos 0) limit
      then none
      else some (timed_out q)

  -- And from the return of the wait, which answers its predicate, on the queue as it is then.
  -- The code reads the stop token twice after the wait, and both reads come to one test here.
  unfoldable pub finish_wait : BoundedQueue A → Bool → BoundedQueue A × DequeueResult A
  finish_wait q stop_requested =
      let ready = q.closed || ltb 0 q.size in
      if stop_requested
      then cancelled q
      else if not ready
      then timed_out q
      else if ltb 0 q.size
      then pop_frame q
      else found_closed q

  unfoldable pub close : BoundedQueue A → BoundedQueue A
  close q = record q { closed = true }
