-- ===== src/Pipeline/Processor/Counts.antt =====
-- The counters of a worker of src/pipeline/src/pipeline.cpp and of its algorithm queue.
use paper_breakage_analysis.Base.{
  ℕ, ◌+◌, ◌%◌, ◌≤◌, ◌≡◌, subst, false, ◌&&◌, Option, none, some, List, [], ◌∷◌, ◌++◌, Result,
  success, failure, arith, ltb, leb, if◌then◌else◌, if-holds, length, length-append, u64_mod,
}
use paper_breakage_analysis.Base.Slots.{held}
use paper_breakage_analysis.Camera.Frame.{Clocks, FramePacket, FrameView, make_frame_view}
use paper_breakage_analysis.Queue.{
  BoundedQueue, DequeueStatus, DequeueResult, push, close, append, skip_oldest,
}
use paper_breakage_analysis.Pipeline.Nodes.{ProcessedFrame, NodeOutcome, chain_process}
use paper_breakage_analysis.Pipeline.Processor.{
  Processor, Turn, Ran, settle, process_view, process_packet, turn_on, take_turn, ended, finish,
  loop, run, is_rejected, count_gaps,
}

-- One more frame in the count where a frame is passed on.
abbrev Counts : ℕ → Option ProcessedFrame → ℕ → Type 0
Counts n o m = m % u64_mod ≡ (n + length (held o)) % u64_mod

-- And in the count of the processor, which has one more where the queue refused the frame and the worker
-- leaves its loop.
abbrev Processes : ℕ → List ProcessedFrame → ℕ → ℕ → Type 0
Processes k fs refused m = m % u64_mod ≡ (k + length fs + refused) % u64_mod

abbrev TurnCounts : ℕ → ℕ → Turn → Type 0
TurnCounts n k t =
    Counts n t.forwarded t.output.enqueued
    × (refused : ℕ) × (refused ≤ (if t.leaves then 1 else 0))
    × Processes k (held t.forwarded) refused t.processor.frames_processed

push_counts :
    (q : BoundedQueue ProcessedFrame) (f : ProcessedFrame)
    → (push q f).0.enqueued % u64_mod
      ≡ (if is_rejected (push q f).1 then q.enqueued else q.enqueued + 1) % u64_mod
unfolding push append skip_oldest
push_counts q f = ground arith

settle_counts :
    (p : Processor) (q : BoundedQueue ProcessedFrame) (o : NodeOutcome)
    → TurnCounts q.enqueued p.frames_processed (settle p q o)
unfolding settle
settle_counts p q (NodeOutcome.refused e) = (omega arith, 0, omega arith, omega arith)
settle_counts p q (NodeOutcome.threw e) = (omega arith, 0, omega arith, omega arith)
settle_counts p q NodeOutcome.threw_unknown = (omega arith, 0, omega arith, omega arith)
settle_counts p q (NodeOutcome.passed f) =
    if-holds (TurnCounts q.enqueued p.frames_processed) (is_rejected (push q f).1)
      (λ e. (ground (arith, push_counts q f), 1, omega arith, omega arith))
      (λ e. (ground (arith, push_counts q f), 0, omega arith, omega arith))

frames_processed-count_gaps :
    (p : Processor) (n : ℕ) → (count_gaps p n).frames_processed ≡ p.frames_processed
frames_processed-count_gaps p n = ground arith

process_view_counts :
    (p : Processor) (q : BoundedQueue ProcessedFrame) (r : Result FrameView)
    → TurnCounts q.enqueued p.frames_processed (process_view p q r)
unfolding process_view
process_view_counts p q (failure e) = (omega arith, 0, omega arith, omega arith)
process_view_counts p q (success view) =
    if-holds (TurnCounts q.enqueued p.frames_processed)
      (ltb 0 p.previous_sequence && leb view.sequence_number p.previous_sequence)
      (λ e. (omega arith, 0, omega arith, omega arith))
      (λ e.
        let counted = count_gaps p view.sequence_number in
        let advanced = record counted { previous_sequence = view.sequence_number } in
        let outcome = chain_process p.chain (record { frame = view; validity_checked = false }) in
        subst (λ k. TurnCounts q.enqueued k (settle advanced q outcome))
          (frames_processed-count_gaps p view.sequence_number) (settle_counts advanced q outcome))

turn_on_counts :
    (clocks : Clocks) (p : Processor) (q : BoundedQueue ProcessedFrame) (duration : ℕ)
    (s : DequeueStatus) (f : Option FramePacket)
    → TurnCounts q.enqueued p.frames_processed (turn_on clocks p q duration s f)
unfolding turn_on process_packet
turn_on_counts clocks p q duration DequeueStatus.frame (some packet) =
    if-holds (TurnCounts q.enqueued p.frames_processed)
      (process_view p q (make_frame_view clocks packet)).leaves
      (λ e. process_view_counts p q (make_frame_view clocks packet))
      (λ e. process_view_counts p q (make_frame_view clocks packet))
turn_on_counts clocks p q duration DequeueStatus.frame none =
    (omega arith, 0, omega arith, omega arith)
turn_on_counts clocks p q duration DequeueStatus.timeout f =
    (omega arith, 0, omega arith, omega arith)
turn_on_counts clocks p q duration DequeueStatus.stopped f =
    (omega arith, 0, omega arith, omega arith)
turn_on_counts clocks p q duration DequeueStatus.closed f =
    (omega arith, 0, omega arith, omega arith)

-- What the counters of the queue and of the processor say of the frames that were passed on.
abbrev pub CountsForwarded : ℕ → ℕ → Ran → Type 0
CountsForwarded n k r =
    (r.output.enqueued % u64_mod ≡ (n + length r.forwarded) % u64_mod)
    × (refused : ℕ) × (refused ≤ 1)
    × Processes k r.forwarded refused r.processor.frames_processed

ended-CountsForwarded :
    (n k : ℕ) (t : Turn)
    → TurnCounts n k t
    → CountsForwarded n k (ended t.processor t.output t.forwarded)
unfolding close finish
ended-CountsForwarded n k t (c, x, l, d) = (c, x, ground (arith, l), d)

after-CountsForwarded :
    (n k : ℕ) (t : Turn) (r : Ran)
    → t.leaves ≡ false
    → TurnCounts n k t
    → CountsForwarded t.output.enqueued t.processor.frames_processed r
    → CountsForwarded n k (record r { forwarded = held t.forwarded ++ r.forwarded })
after-CountsForwarded n k t r stays (c, x, l, d) (e, y, m, f) =
    let same = length-append (held t.forwarded) r.forwarded in
    let none_refused : x ≡ 0 = ground (arith, l, stays) in
    (omega (arith, c, e, same), y, m, omega (arith, d, f, same, none_refused))

loop-CountsForwarded :
    (clocks : Clocks) (p : Processor) (q : BoundedQueue ProcessedFrame)
    (rs : List (DequeueResult FramePacket × ℕ))
    → CountsForwarded q.enqueued p.frames_processed (loop clocks p q rs)
unfolding loop take_turn close finish
loop-CountsForwarded clocks p q [] = (omega arith, 0, omega arith, omega arith)
loop-CountsForwarded clocks p q ((r, duration) ∷ rs) =
    let turn = turn_on clocks p q duration r.status r.frame in
    let counts = turn_on_counts clocks p q duration r.status r.frame in
    if-holds (CountsForwarded q.enqueued p.frames_processed) turn.leaves
      (λ e. ended-CountsForwarded q.enqueued p.frames_processed turn counts)
      (λ e.
        after-CountsForwarded q.enqueued p.frames_processed turn
          (loop clocks turn.processor turn.output rs) e counts
          (loop-CountsForwarded clocks turn.processor turn.output rs))

-- Over the packets that a worker takes in one run, whatever the packets, the nodes and their exceptions:
-- the algorithm queue counts each frame that the worker passes on exactly once, and no other; the
-- processor counts the same frames as processed, and at most one more in the whole run. All counts are
-- modulo 2^64.
pub run-CountsForwarded :
    (clocks : Clocks) (p : Processor) (q : BoundedQueue ProcessedFrame)
    (rs : List (DequeueResult FramePacket × ℕ))
    → CountsForwarded q.enqueued p.frames_processed (run clocks p q rs)
unfolding run
run-CountsForwarded clocks p q rs =
    loop-CountsForwarded clocks (record p { previous_sequence = 0 }) q rs
