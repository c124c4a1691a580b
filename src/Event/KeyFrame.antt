-- ===== src/Event/KeyFrame.antt =====
-- src/event/include/paperbreak/event/key_frame.hpp and src/event/src/key_frame.cpp,
-- `KeyFrameJpegRuntime`: one worker that encodes the key frames of events as JPEG from a bounded ring of
-- jobs. The encoder is the answer that it gave; the worker's loop is its parts under the lock.
use paper_breakage_analysis.Base.{
  ℕ, ◌+◌, ◌-◌, ◌*◌, ◌%◌, max, Bool, true, false, not, ◌&&◌, ◌||◌, Option, none, some, List, [], ◌∷◌,
  map, String, Result, Error, Severity, error, success, failure, make_error, length, set, get_or,
  replicate, ltb, ◌==◌, if◌then◌else◌, is_empty, str_eq, inc_u64, add_u64, sub_u64,
}
use paper_breakage_analysis.Base.Integers.{ℤ, pos, negsuc}
use paper_breakage_analysis.Camera.Frame.{FrameGeometry, FrameView, PixelFormat}
use paper_breakage_analysis.Event.KeyFrameSelection.{
  KeyFrameReason, reason_number, key_frame_reason_count, KeyFrameDescriptor, SelectedKeyFrame,
  KeyFrameSelectionResult, descriptor_matches, same_frame, is_invalid_selection,
}
pub mod Bench
pub mod Ring
pub mod Steps
pub mod Order

pub record Job : Type 0 where
  pub event_id : String
  pub selected : SelectedKeyFrame

pub record KeyFrameEncodingResult : Type 0 where
  pub event_id : String
  pub descriptor : KeyFrameDescriptor
  pub jpeg : List ℕ
  pub error : Option Error

pub record RuntimeOptions : Type 0 where
  pub job_capacity : ℕ
  pub jpeg_quality : ℕ
  pub maximum_dimension : ℕ
  pub maximum_input_bytes : ℕ
  pub maximum_jpeg_bytes : ℕ

pub record JpegRuntime : Type 0 where
  pub options : RuntimeOptions
  pub jobs : List (Option Job)
  pub read_index : ℕ
  pub write_index : ℕ
  pub depth : ℕ
  pub started : Bool
  pub stopping : Bool
  pub completed_run : Bool
  pub high_watermark : ℕ
  pub submitted : ℕ
  pub completed : ℕ
  pub rejected : ℕ
  pub encoding_failures : ℕ
  pub callback_failures : ℕ

abbrev pub key_frame_error : String → String → Bool → Error
key_frame_error code operation retryable = make_error code error "event" operation retryable

abbrev pub out_of_range : ℕ → ℕ → Bool
out_of_range n limit = (n == 0) || ltb limit n

abbrev pub new_runtime : RuntimeOptions → JpegRuntime
new_runtime o = record {
  options = o;
  jobs = replicate o.job_capacity none;
  read_index = 0;
  write_index = 0;
  depth = 0;
  started = false;
  stopping = false;
  completed_run = true;
  high_watermark = 0;
  submitted = 0;
  completed = 0;
  rejected = 0;
  encoding_failures = 0;
  callback_failures = 0;
}

unfoldable pub create : RuntimeOptions → Result JpegRuntime
create o =
    if out_of_range o.job_capacity 256
      || out_of_range o.jpeg_quality 100
      || out_of_range o.maximum_dimension 32768
      || out_of_range o.maximum_input_bytes (512 * 1024 * 1024)
      || out_of_range o.maximum_jpeg_bytes (128 * 1024 * 1024)
    then failure (key_frame_error "SYS_CONFIG_INVALID" "keyframe.createRuntime" false)
    else success (new_runtime o)

-- Told whether a thread can be created.
unfoldable pub start : JpegRuntime → Bool → JpegRuntime × Result (Unit {0})
start r thread =
    if r.started
    then (r, failure (key_frame_error "EVENT_INVALID_TRANSITION" "keyframe.start" false))
    else if thread
    then (record r { started = true; stopping = false; completed_run = false }, success tt)
    else (
      record r { started = false; stopping = false; completed_run = true },
      failure (key_frame_error "EVENT_KEYFRAME_ENCODE_FAILED" "keyframe.start" true),
    )

unfoldable pub jobs_of : KeyFrameSelectionResult → List Job
jobs_of s = map (λ frame. record { event_id = s.event_id; selected = frame }) s.frames

unfoldable pub place_job : JpegRuntime → Job → JpegRuntime
place_job r job = record r {
  jobs = set r.jobs r.write_index (some job);
  write_index = (r.write_index + 1) % length r.jobs;
  depth = r.depth + 1;
}

unfoldable pub place_jobs : JpegRuntime → List Job → JpegRuntime
place_jobs r [] = r
place_jobs r (job ∷ rest) = place_jobs (place_job r job) rest

abbrev pub reject_frames : JpegRuntime → ℕ → JpegRuntime × Result (Unit {0})
reject_frames r n = (
  record r { rejected = add_u64 r.rejected n },
  failure (key_frame_error "EVENT_KEYFRAME_QUEUE_FULL" "keyframe.submit" false),
)

abbrev pub count_placed : JpegRuntime → ℕ → JpegRuntime
count_placed r n = record r {
  submitted = add_u64 r.submitted n;
  high_watermark = max r.high_watermark r.depth;
}

-- Told whether there is memory for the jobs.
unfoldable pub submit :
    JpegRuntime → KeyFrameSelectionResult → Bool → JpegRuntime × Result (Unit {0})
submit r s memory =
    let n = length s.frames in
    if is_invalid_selection s
    then (r, failure (key_frame_error "EVENT_KEYFRAME_SELECTION_FAILED" "keyframe.submit" false))
    else if not memory
    then reject_frames r n
    else if not r.started || r.stopping || ltb (sub_u64 r.options.job_capacity r.depth) n
    then reject_frames r n
    else (count_placed (place_jobs r (jobs_of s)) n, success tt)

unfoldable pub request_stop : JpegRuntime → JpegRuntime
request_stop r = if r.started then record r { stopping = true } else r

-- On the runtime as it is when the wait for the end of the worker is over.
unfoldable pub join : JpegRuntime → Result (Unit {0})
join r =
    if not r.started || r.completed_run
    then success tt
    else failure (key_frame_error "SYS_SHUTDOWN_TIMEOUT" "keyframe.join" true)

-- The worker between two jobs: the next one, or none while it waits; stopped and with none left it ends.
unfoldable pub take_job : JpegRuntime → JpegRuntime × Option Job
take_job r =
    if r.depth == 0
    then (if r.stopping then (record r { completed_run = true }, none) else (r, none))
    else (
      record r {
        jobs = set r.jobs r.read_index none;
        read_index = (r.read_index + 1) % length r.jobs;
        depth = r.depth - 1;
      },
      get_or r.jobs r.read_index none,
    )

pub data EncodeAnswer : Type 0 where
  encoded : List ℕ → EncodeAnswer
  refused : Error → EncodeAnswer
  threw : EncodeAnswer

unfoldable pub output_of : Job → EncodeAnswer → KeyFrameEncodingResult
output_of job (EncodeAnswer.encoded jpeg) = record {
  event_id = job.event_id;
  descriptor = job.selected.descriptor;
  jpeg = jpeg;
  error = none;
}
output_of job (EncodeAnswer.refused e) = record {
  event_id = job.event_id;
  descriptor = job.selected.descriptor;
  jpeg = [];
  error = some e;
}
output_of job EncodeAnswer.threw = record {
  event_id = job.event_id;
  descriptor = job.selected.descriptor;
  jpeg = [];
  error = some (key_frame_error "EVENT_KEYFRAME_ENCODE_FAILED" "keyframe.encode" true);
}

abbrev pub is_failed : EncodeAnswer → Bool
is_failed (EncodeAnswer.encoded _) = false
is_failed _ = true

-- The counters after a job whose callback threw or not.
unfoldable pub settle : JpegRuntime → EncodeAnswer → Bool → JpegRuntime
settle r answer callback_threw = record r {
  callback_failures = if callback_threw then inc_u64 r.callback_failures else r.callback_failures;
  completed = inc_u64 r.completed;
  encoding_failures = if is_failed answer then inc_u64 r.encoding_failures else r.encoding_failures;
}
