-- ===== src/Pipeline/Runtime.antt =====
-- src/pipeline/src/pipeline.cpp, `ProcessingRuntime`: the processors of all cameras, started and
-- stopped together. What the threads of started processors do meanwhile is a parameter.
use paper_breakage_analysis.Base.{
  ℕ, zero, suc, ◌+◌, ◌-◌, Bool, true, false, not, ◌&&◌, ◌||◌, Option, none, some, List, [], ◌∷◌,
  ◌++◌, String, map, Result, Error, success, failure, error, ltb, leb, ◌==◌, if◌then◌else◌, str_eq,
  length, has_value,
}
use paper_breakage_analysis.Base.CameraSlots.{camera_slot_count}
use paper_breakage_analysis.Pipeline.Nodes.{pipeline_error}
use paper_breakage_analysis.Pipeline.Processor.{Processor, start, request_stop, join}
pub mod Cameras
pub mod Start
pub mod Run

pub record ProcessingRuntime : Type 0 where
  pub processors : List Processor
  pub started : Bool

abbrev pub new_runtime : ProcessingRuntime
new_runtime = record { processors = []; started = false }

unfoldable pub has_camera : String → List Processor → Bool
has_camera id [] = false
has_camera id (p ∷ ps) = str_eq p.camera_id id || has_camera id ps

abbrev pub add_error : String → String → Error
add_error id reason = pipeline_error "CAMERA_CONFIG_FAILED" error "pipeline.runtime.add" id reason

-- A null pointer is no processor.
unfoldable pub add : ProcessingRuntime → Option Processor → ProcessingRuntime × Result (Unit {0})
add r none = (r, failure (add_error "" "null-processor"))
add r (some p) =
    if r.started || leb camera_slot_count (length r.processors)
    then (
      r,
      failure (
          add_error p.camera_id
            (if r.started then "runtime-already-started" else "camera-count-exceeded")),
    )
    else if has_camera p.camera_id r.processors
    then (r, failure (add_error p.camera_id "duplicate-camera-id"))
    else (record r { processors = r.processors ++ (p ∷ []) }, success tt)

-- Whether a thread can be created for each processor: the text of the exception where it cannot.
unfoldable pub first_thread : List (Option String) → Option String
first_thread [] = none
first_thread (t ∷ ts) = t

unfoldable pub other_threads : List (Option String) → List (Option String)
other_threads [] = []
other_threads (t ∷ ts) = ts

-- What the thread of a started processor does to it while as many processors as are given are still to be
-- started, and up to its end or the deadline of a join, once it was told to stop.
pub record Threads : Type 0 where
  pub goes_on : ℕ → Processor → Processor
  pub settles : Processor → Processor

-- Stopping the ones that were started, and joining them.
abbrev pub stop_and_join : (Processor → Processor) → Processor → Processor
stop_and_join settles p = (join (settles (request_stop p))).0

unfoldable pub start_all :
    Threads
    → List (Option String)
    → List Processor
    → List Processor
    → List Processor × Result (Unit {0})
start_all w threads before [] = (before, success tt)
start_all w threads before (p ∷ ps) =
    let launched = start p (first_thread threads) in
    let now = map (w.goes_on (length ps)) before in
    let rest = start_all w (other_threads threads) (now ++ (launched.0 ∷ [])) ps in
    if not (has_value launched.1)
    then (map (stop_and_join w.settles) now ++ (launched.0 ∷ ps), launched.1)
    else rest

unfoldable pub start_runtime :
    Threads → ProcessingRuntime → List (Option String) → ProcessingRuntime × Result (Unit {0})
start_runtime w r threads =
    let done = start_all w threads [] r.processors in
    if r.started || length r.processors == 0
    then (
      r,
      failure (
          pipeline_error "CAMERA_INVALID_STATE_TRANSITION" error "pipeline.runtime.start" ""
            (if r.started then "already-started" else "no-processors")),
    )
    else (record r { processors = done.0; started = has_value done.1 }, done.1)

unfoldable pub stop_runtime : ProcessingRuntime → ProcessingRuntime
stop_runtime r = record r { processors = map request_stop r.processors }

-- Every processor is joined; the first error is the answer.
abbrev pub first_of : Result (Unit {0}) → Result (Unit {0}) → Result (Unit {0})
first_of (success u) r = r
first_of (failure e) r = failure e

unfoldable pub join_all : List Processor → List Processor × Result (Unit {0})
join_all [] = ([], success tt)
join_all (p ∷ ps) =
    let joined = join p in let rest = join_all ps in (joined.0 ∷ rest.0, first_of joined.1 rest.1)

unfoldable pub join_runtime : ProcessingRuntime → ProcessingRuntime × Result (Unit {0})
join_runtime r =
    let joined = join_all r.processors in (record r { processors = joined.0 }, joined.1)
