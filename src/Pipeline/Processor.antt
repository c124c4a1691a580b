-- ===== src/Pipeline/Processor.antt =====
-- src/pipeline/src/pipeline.cpp, `PerCameraProcessor`: the worker of one camera takes packets from its
-- acquisition queue, checks their order, runs the chain and pushes what passes to the algorithm queue.
-- The time that a frame takes, and whether a thread can be created, come from the system.
use paper_breakage_analysis.Base.{
  ℕ, zero, suc, ◌+◌, ◌-◌, ◌*◌, max, Bool, true, false, not, ◌&&◌, ◌||◌, Option, none, some, List,
  [], ◌∷◌, ◌++◌, String, Result, Error, success, failure, error, warning, critical, detail, text,
  ltb, leb, ◌==◌, if◌then◌else◌, inc_u64, add_u64, sub_u64,
}
use paper_breakage_analysis.Base.CameraSlots.{is_canonical_camera_id}
use paper_breakage_analysis.Base.Integers.{ℤ, pos, ltb_ℤ}
use paper_breakage_analysis.Camera.Frame.{Clocks, FramePacket, FrameView, make_frame_view}
use paper_breakage_analysis.Base.Slots.{held}
use paper_breakage_analysis.Queue.{
  BoundedQueue, EnqueueStatus, DequeueStatus, DequeueResult, push, close,
}
use paper_breakage_analysis.Pipeline.Nodes.{
  ProcessedFrame, Node, NodeOutcome, chain_process, pipeline_error, is_invalid_frame_error,
}
pub mod Order
pub mod Counts

-- The thread: whether it is there to join, and whether it was told to stop.
pub record Worker : Type 0 where
  pub joinable : Bool
  pub stop_requested : Bool

-- `previous_sequence` is the local variable of `run`.
pub record Processor : Type 0 where
  pub camera_id : String
  pub input_wait_timeout : ℤ
  pub chain : List Node
  pub started : Bool
  pub running : Bool
  pub completed : Bool
  pub last_error : Option Error
  pub frames_processed : ℕ
  pub frames_rejected : ℕ
  pub invalid_frames : ℕ
  pub sequence_gaps : ℕ
  pub node_failures : ℕ
  pub total_processing_nanoseconds : ℕ
  pub maximum_processing_nanoseconds : ℕ
  pub worker : Worker
  pub previous_sequence : ℕ

abbrev pub no_worker : Worker
no_worker = record { joinable = false; stop_requested = false }

unfoldable pub new_processor : String → ℤ → List Node → Processor
new_processor camera_id limit chain = record {
  camera_id = camera_id;
  input_wait_timeout = limit;
  chain = chain;
  started = false;
  running = false;
  completed = true;
  last_error = none;
  frames_processed = 0;
  frames_rejected = 0;
  invalid_frames = 0;
  sequence_gaps = 0;
  node_failures = 0;
  total_processing_nanoseconds = 0;
  maximum_processing_nanoseconds = 0;
  worker = no_worker;
  previous_sequence = 0;
}

abbrev pub start_error : Processor → String → String → Error
start_error p code reason = pipeline_error code error "pipeline.processor.start" p.camera_id reason

-- With the text of the exception where no thread can be created.
unfoldable pub launch : Processor → Option String → Processor × Result (Unit {0})
launch p none = (
  record p {
    started = true;
    running = true;
    completed = false;
    last_error = none;
    worker = record { joinable = true; stop_requested = false };
    previous_sequence = 0;
  },
  success tt,
)
launch p (some exception) =
    let failed = start_error p "CAMERA_OPEN_FAILED" "thread-create-failed" in
    (
      record p { started = false; running = false; completed = true; last_error = none },
      failure (record failed {
        details = failed.details ++ (detail "exception" (text exception) ∷ []);
      }),
    )

unfoldable pub start : Processor → Option String → Processor × Result (Unit {0})
unfolding launch
start p thread =
    if not (is_canonical_camera_id p.camera_id) || not (ltb_ℤ (pos 0) p.input_wait_timeout)
    then (p, failure (start_error p "CAMERA_CONFIG_FAILED" "invalid-options"))
    else if p.started
    then (p, failure (start_error p "CAMERA_INVALID_STATE_TRANSITION" "already-started"))
    else launch p thread

unfoldable pub request_stop : Processor → Processor
request_stop p =
    if p.worker.joinable then record p { worker = record p.worker { stop_requested = true } } else p

-- On the processor as it is when the wait for its completion ends.
unfoldable pub join : Processor → Processor × Result (Unit {0})
join p =
    if not p.started
    then (p, success tt)
    else if not p.completed
    then (
      p,
      failure (
          pipeline_error "SYS_SHUTDOWN_TIMEOUT" critical "pipeline.processor.join" p.camera_id
            "deadline-exceeded"),
    )
    else (record p { worker = record p.worker { joinable = false } }, success tt)

abbrev pub record_failure : Processor → Error → Processor
record_failure p e = record p { last_error = some e }

unfoldable pub finish : Processor → Option Error → Processor
finish p none = record p { running = false; completed = true }
finish p (some e) = record p { running = false; completed = true; last_error = some e }

abbrev pub reject_invalid : Processor → Error → Processor
reject_invalid p e =
    record_failure
      (record p {
        frames_rejected = inc_u64 p.frames_rejected;
        invalid_frames = inc_u64 p.invalid_frames;
      })
      e

abbrev pub reject_by_node : Processor → Error → Processor
reject_by_node p e =
    record_failure
      (record p {
        frames_rejected = inc_u64 p.frames_rejected;
        node_failures = inc_u64 p.node_failures;
        invalid_frames =
            if is_invalid_frame_error e then inc_u64 p.invalid_frames else p.invalid_frames;
      })
      e

abbrev pub node_error : Processor → String → Error
node_error p reason =
    pipeline_error "ALGORITHM_PROCESS_FAILED" error "pipeline.processor.process" p.camera_id reason

abbrev pub exception_error : Processor → String → Error
exception_error p exception =
    let base = node_error p "node-exception" in
    record base { details = base.details ++ (detail "exception" (text exception) ∷ []) }

pub record Turn : Type 0 where
  pub processor : Processor
  pub output : BoundedQueue ProcessedFrame
  -- the frame that went out, and whether the loop is left
  pub forwarded : Option ProcessedFrame
  pub leaves : Bool

abbrev pub stays : Processor → BoundedQueue ProcessedFrame → Turn
stays p output = record { processor = p; output = output; forwarded = none; leaves = false }

abbrev pub is_rejected : EnqueueStatus → Bool
is_rejected EnqueueStatus.rejected = true
is_rejected _ = false

unfoldable pub settle : Processor → BoundedQueue ProcessedFrame → NodeOutcome → Turn
settle p output (NodeOutcome.refused e) = stays (reject_by_node p e) output
settle p output (NodeOutcome.threw what) = stays (reject_by_node p (exception_error p what)) output
settle p output NodeOutcome.threw_unknown =
    stays (reject_by_node p (node_error p "unknown-node-exception")) output
settle p output (NodeOutcome.passed frame) =
    let counted = record p { frames_processed = inc_u64 p.frames_processed } in
    let pushed = push output frame in
    if is_rejected pushed.1
    then record { processor = counted; output = pushed.0; forwarded = none; leaves = true }
    else record { processor = counted; output = pushed.0; forwarded = some frame; leaves = false }

-- Numbers that the camera skipped.
abbrev pub count_gaps : Processor → ℕ → Processor
count_gaps p sequence =
    if ltb 0 p.previous_sequence && ltb (inc_u64 p.previous_sequence) sequence
    then record p {
      sequence_gaps = add_u64 p.sequence_gaps (sub_u64 (sub_u64 sequence p.previous_sequence) 1);
    }
    else p

abbrev pub order_error : Processor → Error
order_error p =
    pipeline_error "PIPELINE_FRAME_ORDER_VIOLATION" warning "pipeline.processor.order" p.camera_id
      "sequence-not-increasing"

unfoldable pub process_view : Processor → BoundedQueue ProcessedFrame → Result FrameView → Turn
unfolding settle
process_view p output (failure e) = stays (reject_invalid p e) output
process_view p output (success view) =
    let counted = count_gaps p view.sequence_number in
    let advanced = record counted { previous_sequence = view.sequence_number } in
    if ltb 0 p.previous_sequence && leb view.sequence_number p.previous_sequence
    then stays (reject_invalid p (order_error p)) output
    else settle advanced output
        (chain_process p.chain (record { frame = view; validity_checked = false }))

abbrev pub count_time : Processor → ℕ → Processor
count_time p duration = record p {
  total_processing_nanoseconds = add_u64 p.total_processing_nanoseconds duration;
  maximum_processing_nanoseconds = max p.maximum_processing_nanoseconds duration;
}

-- The time is not counted where the loop is left.
unfoldable pub process_packet :
    Clocks → Processor → BoundedQueue ProcessedFrame → FramePacket → ℕ → Turn
unfolding process_view
process_packet clocks p output packet duration =
    let turn = process_view p output (make_frame_view clocks packet) in
    if turn.leaves then turn else record turn { processor = count_time turn.processor duration }

-- What `wait_pop` answers, in one iteration.
unfoldable pub turn_on :
    Clocks → Processor → BoundedQueue ProcessedFrame → ℕ → DequeueStatus → Option FramePacket → Turn
unfolding process_packet
turn_on clocks p output duration DequeueStatus.frame (some packet) =
    process_packet clocks p output packet duration
turn_on clocks p output duration DequeueStatus.frame none = stays p output
turn_on clocks p output duration DequeueStatus.timeout f = stays p output
turn_on clocks p output duration DequeueStatus.stopped f = record (stays p output) { leaves = true }
turn_on clocks p output duration DequeueStatus.closed f = record (stays p output) { leaves = true }

unfoldable pub take_turn :
    Clocks → Processor → BoundedQueue ProcessedFrame → DequeueResult FramePacket → ℕ → Turn
unfolding turn_on
take_turn clocks p output r duration = turn_on clocks p output duration r.status r.frame

pub record Ran : Type 0 where
  pub processor : Processor
  pub output : BoundedQueue ProcessedFrame
  -- every frame that went out, in order
  pub forwarded : List ProcessedFrame

-- However the loop ends, the algorithm queue is closed and the processor completed.
abbrev pub ended : Processor → BoundedQueue ProcessedFrame → Option ProcessedFrame → Ran
ended p output last = record {
  processor = finish p none;
  output = close output;
  forwarded = held last;
}

-- The loop over the answers of the acquisition queue, until one leaves it or it is told to stop, which
-- is the end of the list; then the algorithm queue is closed.
unfoldable pub loop :
    Clocks → Processor → BoundedQueue ProcessedFrame → List (DequeueResult FramePacket × ℕ) → Ran
unfolding take_turn
loop clocks p output [] = ended p output none
loop clocks p output ((r, duration) ∷ rs) =
    let turn = take_turn clocks p output r duration in
    let rest = loop clocks turn.processor turn.output rs in
    if turn.leaves
    then ended turn.processor turn.output turn.forwarded
    else record rest { forwarded = held turn.forwarded ++ rest.forwarded }

unfoldable pub run :
    Clocks → Processor → BoundedQueue ProcessedFrame → List (DequeueResult FramePacket × ℕ) → Ran
unfolding loop
run clocks p output rs = loop clocks (record p { previous_sequence = 0 }) output rs
