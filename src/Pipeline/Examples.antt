-- ===== src/Pipeline/Examples.antt =====
-- A worker whose chain checks validity, on a packet that comes twice.
use paper_breakage_analysis.Base.{ℕ, refl, true, false, List, [], ◌∷◌, some, none}
use paper_breakage_analysis.Base.Integers.{pos}
use paper_breakage_analysis.Camera.Frame.{FramePacket}
use paper_breakage_analysis.Camera.FrameExamples.{windows_clocks, small_packet}
use paper_breakage_analysis.Queue.{BoundedQueue, DequeueStatus, DequeueResult}
use paper_breakage_analysis.Pipeline.Nodes.{
  ProcessedFrame, ValidityCheckOptions, pass_through, validity_check,
}
use paper_breakage_analysis.Pipeline.Processor.{Processor, new_processor, run}
use paper_breakage_analysis.Pipeline.Processor.Order.{
  AscendsFrom, run-AscendsFrom, pass_through-KeepsView, validity_check-KeepsView,
}
use paper_breakage_analysis.Pipeline.Processor.Counts.{CountsForwarded, run-CountsForwarded}
use paper_breakage_analysis.Pipeline.Runtime.{ProcessingRuntime, Threads, new_runtime}
use paper_breakage_analysis.Pipeline.Runtime.Cameras.{IsValid}
use paper_breakage_analysis.Pipeline.Runtime.Run.{
  RuntimeCall, adds, starts, stops, joins, runtime_run, runtime_run-IsValid,
}

abbrev check_options : ValidityCheckOptions
check_options = record {
  expected_geometry = none;
  expected_pixel_format = none;
  reject_incomplete = true;
}

abbrev worker : Processor
worker = new_processor "CAM01" (pos 100) (pass_through ∷ validity_check check_options ∷ [])

abbrev one_slot : BoundedQueue ProcessedFrame
one_slot = record {
  slots = none ∷ [];
  head = 0;
  size = 0;
  depth = 0;
  high_watermark = 0;
  enqueued = 0;
  dequeued = 0;
  skipped = 0;
  rejected_closed = 0;
  wait_timeouts = 0;
  wait_cancelled = 0;
  closed = false;
}

abbrev arrives : FramePacket → DequeueResult FramePacket
arrives p = record { status = DequeueStatus.frame; frame = some p }

abbrev arrivals : List (DequeueResult FramePacket × ℕ)
arrivals =
    (arrives small_packet, 40)
    ∷ (arrives small_packet, 30)
    ∷ (arrives (record small_packet { sequence_number = 9 }), 20)
    ∷ (record { status = DequeueStatus.closed; frame = none }, 0)
    ∷ []

run-AscendsFrom_example : AscendsFrom 0 (run windows_clocks worker one_slot arrivals).forwarded
unfolding new_processor
run-AscendsFrom_example =
    run-AscendsFrom windows_clocks worker one_slot arrivals
      (pass_through-KeepsView, (validity_check-KeepsView check_options, tt))

run-CountsForwarded_example : CountsForwarded 0 0 (run windows_clocks worker one_slot arrivals)
unfolding new_processor
run-CountsForwarded_example = run-CountsForwarded windows_clocks worker one_slot arrivals

-- The thread of a processor that was told to stop completes.
abbrev threads : Threads
threads = record {
  goes_on = λ n p. p;
  settles = λ p. record p { completed = true; running = false };
}

abbrev other_worker : Processor
other_worker = new_processor "CAM02" (pos 100) (pass_through ∷ [])

-- The second camera has no thread, so that the first is stopped again.
abbrev runtime_calls : List RuntimeCall
runtime_calls =
    adds (some worker)
    ∷ adds (some worker)
    ∷ adds (some other_worker)
    ∷ starts threads (none ∷ some "no thread" ∷ [])
    ∷ stops
    ∷ joins
    ∷ []

runtime_run-IsValid_example : IsValid (runtime_run new_runtime runtime_calls)
runtime_run-IsValid_example =
    runtime_run-IsValid runtime_calls (tt, (tt, (tt, ((λ n p. refl, λ p. refl), (tt, (tt, tt))))))

abbrev two_cameras : ProcessingRuntime
two_cameras = record { processors = worker ∷ other_worker ∷ []; started = false }
