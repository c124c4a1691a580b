-- ===== src/Event/KeyFrame/Bench.antt =====
-- The calls of `KeyFrameJpegRuntime` of src/event/src/key_frame.cpp and the parts of its worker in any
-- order.
use paper_breakage_analysis.Base.{
  Bool, not, ◌&&◌, Option, none, some, List, [], ◌∷◌, ◌++◌, String, Result, has_value,
  if◌then◌else◌,
}
use paper_breakage_analysis.Event.KeyFrameSelection.{KeyFrameSelectionResult, KeyFrameDescriptor}
use paper_breakage_analysis.Event.KeyFrame.{
  Job, JpegRuntime, KeyFrameEncodingResult, EncodeAnswer, start, submit, jobs_of, request_stop,
  take_job, settle, output_of,
}

-- A call by another thread, or the next part of the worker under the lock, with what the encoder and the
-- callback do with the job in hand.
pub data Call : Type 0 where
  starts : Bool → Call
  submits : KeyFrameSelectionResult → Bool → Call
  stops : Call
  turns : EncodeAnswer → Bool → Call

-- A runtime, the job that its worker has in hand, what its callback was given, and the jobs of the
-- selections that `submit` accepted.
pub record Bench : Type 0 where
  pub runtime : JpegRuntime
  pub in_hand : Option Job
  pub delivered : List KeyFrameEncodingResult
  pub accepted : List Job

abbrev pub idle : JpegRuntime → Bench
idle r = record { runtime = r; in_hand = none; delivered = []; accepted = [] }

abbrev pub has_ended : JpegRuntime → Bool
has_ended r = r.started && r.completed_run

abbrev pub note_submit : Bench → List Job → JpegRuntime × Result (Unit {0}) → Bench
note_submit b jobs (r, answer) = record b {
  runtime = r;
  accepted = if has_value answer then b.accepted ++ jobs else b.accepted;
}

abbrev pub turn : Bench → Option Job → EncodeAnswer → Bool → Bench
turn b none answer threw = record b {
  runtime = (take_job b.runtime).0;
  in_hand = (take_job b.runtime).1;
}
turn b (some job) answer threw = record b {
  runtime = settle b.runtime answer threw;
  in_hand = none;
  delivered = b.delivered ++ (output_of job answer ∷ []);
}

unfoldable pub step : Bench → Call → Bench
step b (Call.starts thread) = record b { runtime = (start b.runtime thread).0 }
step b (Call.submits s memory) = note_submit b (jobs_of s) (submit b.runtime s memory)
step b Call.stops = record b { runtime = request_stop b.runtime }
step b (Call.turns answer threw) =
    if b.runtime.started && not b.runtime.completed_run then turn b b.in_hand answer threw else b

unfoldable pub run : Bench → List Call → Bench
run b [] = b
run b (c ∷ cs) = run (step b c) cs

-- Which frame of which event a job is for, and a result.
abbrev pub job_frame : Job → String × KeyFrameDescriptor
job_frame j = (j.event_id, j.selected.descriptor)

abbrev pub result_frame : KeyFrameEncodingResult → String × KeyFrameDescriptor
result_frame r = (r.event_id, r.descriptor)
