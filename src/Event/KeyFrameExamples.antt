-- ===== src/Event/KeyFrameExamples.antt =====
-- Two key frames of one event, encoded one after the other around a stop.
use paper_breakage_analysis.Base.{ℕ, ◌≡◌, refl, ◌++◌, true, false, List, [], ◌∷◌, map, success}
use paper_breakage_analysis.Base.Slots.{held}
use paper_breakage_analysis.Camera.Frame.{FrameView}
use paper_breakage_analysis.Camera.FrameExamples.{small_view}
use paper_breakage_analysis.Event.KeyFrameSelection.{
  KeyFrameReason, SelectedKeyFrame, KeyFrameSelectionResult, is_invalid_selection,
  descriptor_matches, same_frame,
}
use paper_breakage_analysis.Event.KeyFrame.{
  EncodeAnswer, RuntimeOptions, create, new_runtime, start, submit, place_job, place_jobs, jobs_of,
  request_stop, take_job, settle, output_of,
}
use paper_breakage_analysis.Event.KeyFrame.Bench.{
  Call, idle, has_ended, step, run, job_frame, result_frame,
}
use paper_breakage_analysis.Event.KeyFrame.Ring.{queued}
use paper_breakage_analysis.Event.KeyFrame.Order.{run-keeps_order, run-drains}

abbrev options : RuntimeOptions
options = record {
  job_capacity = 2;
  jpeg_quality = 90;
  maximum_dimension = 16384;
  maximum_input_bytes = 1048576;
  maximum_jpeg_bytes = 1048576;
}

options_allowed : create options ≡ success (new_runtime options)
unfolding create
options_allowed = refl

abbrev numbered_view : ℕ → FrameView
numbered_view n = record small_view { sequence_number = n }

abbrev selected : FrameView → KeyFrameReason → SelectedKeyFrame
selected view reason = record {
  descriptor = record {
    camera_id = view.camera_id;
    camera_frame_number = view.camera_frame_number;
    sequence_number = view.sequence_number;
    monotonic_time = view.received_monotonic_time;
    wall_clock_time = view.received_wall_clock_time;
    geometry = view.geometry;
    pixel_format = view.pixel_format;
    reasons = reason ∷ [];
  };
  frame = view;
}

abbrev selection : KeyFrameSelectionResult
selection = record {
  event_id = "event-1";
  frames =
      selected (numbered_view 7) KeyFrameReason.candidate_trigger
      ∷ selected (numbered_view 9) KeyFrameReason.post_event_state
      ∷ [];
  missing_reasons = [];
  complete = true;
}

-- A second submission finds the ring full; the stop comes while the first frame is in hand.
abbrev calls : List Call
calls =
    Call.starts true
    ∷ Call.submits selection true
    ∷ Call.submits selection true
    ∷ Call.turns EncodeAnswer.threw false
    ∷ Call.stops
    ∷ Call.turns (EncodeAnswer.encoded (1 ∷ 2 ∷ [])) false
    ∷ Call.turns EncodeAnswer.threw false
    ∷ Call.turns EncodeAnswer.threw true
    ∷ Call.turns EncodeAnswer.threw false
    ∷ []

calls_end : has_ended (run (idle (new_runtime options)) calls).runtime ≡ true
unfolding run step start submit is_invalid_selection descriptor_matches same_frame place_jobs
    place_job jobs_of request_stop take_job settle output_of
calls_end = refl

-- Both frames came out.
calls_delivered :
    map result_frame (run (idle (new_runtime options)) calls).delivered
    ≡ map job_frame (jobs_of selection)
unfolding run step start submit is_invalid_selection descriptor_matches same_frame place_jobs
    place_job jobs_of request_stop take_job settle output_of
calls_delivered = refl

run-keeps_order_example :
    let after = run (idle (new_runtime options)) calls in
    map result_frame after.delivered ++ map job_frame (held after.in_hand ++ queued after.runtime)
    ≡ map job_frame after.accepted
run-keeps_order_example = run-keeps_order options (new_runtime options) calls options_allowed

run-drains_example :
    map result_frame (run (idle (new_runtime options)) calls).delivered
    ≡ map job_frame (run (idle (new_runtime options)) calls).accepted
run-drains_example = run-drains options (new_runtime options) calls options_allowed calls_end
