-- ===== src/Pipeline/Runtime/Run.antt =====
-- Any calls on a runtime of src/pipeline/src/pipeline.cpp, with the threads of its processors in between.
use paper_breakage_analysis.Base.{
  sym, ℕ, map, ◌||◌, Option, List, [], ◌∷◌, String, Result, if-holds, length, has_value, arith,
  ◌==◌,
}
use paper_breakage_analysis.Pipeline.Processor.{Processor, request_stop}
use paper_breakage_analysis.Pipeline.Runtime.{
  ProcessingRuntime, Threads, new_runtime, add, stop_runtime, join_runtime, start_all,
  start_runtime,
}
use paper_breakage_analysis.Pipeline.Runtime.Cameras.{
  IsValid, KeepsCamera, cameras-map, cameras-start_all, cameras-join_all, request_stop-KeepsCamera,
  add-IsValid, same_cameras-IsValid,
}

-- The calls on a runtime, and what the threads of its processors do in between.
pub data RuntimeCall : Type 0 where
  adds : Option Processor → RuntimeCall
  starts : Threads → List (Option String) → RuntimeCall
  stops joins : RuntimeCall
  goes_on : (Processor → Processor) → RuntimeCall

unfoldable pub runtime_step : ProcessingRuntime → RuntimeCall → ProcessingRuntime
runtime_step r (adds o) = (add r o).0
runtime_step r (starts w ts) = (start_runtime w r ts).0
runtime_step r stops = stop_runtime r
runtime_step r joins = (join_runtime r).0
runtime_step r (goes_on f) = record r { processors = map f r.processors }

unfoldable pub runtime_run : ProcessingRuntime → List RuntimeCall → ProcessingRuntime
runtime_run r [] = r
runtime_run r (c ∷ cs) = runtime_run (runtime_step r c) cs

-- No thread changes the camera of its processor, which is constant in the code.
abbrev pub CallKeepsCameras : RuntimeCall → Type 0
CallKeepsCameras (starts w ts) = ((n : ℕ) → KeepsCamera (w.goes_on n)) × KeepsCamera w.settles
CallKeepsCameras (goes_on f) = KeepsCamera f
CallKeepsCameras _ = Unit {0}

abbrev pub AllKeepCameras : List RuntimeCall → Type 0
AllKeepCameras [] = Unit {0}
AllKeepCameras (c ∷ cs) = CallKeepsCameras c × AllKeepCameras cs

runtime_step-IsValid :
    (r : ProcessingRuntime) (c : RuntimeCall)
    → CallKeepsCameras c
    → IsValid r
    → IsValid (runtime_step r c)
unfolding runtime_step start_runtime stop_runtime join_runtime
runtime_step-IsValid r (adds o) k v = add-IsValid r o v
runtime_step-IsValid r (starts w ts) k v =
    if-holds P (r.started || length r.processors == 0) (λ e. v)
      (λ e.
        let done = start_all w ts [] r.processors in
        same_cameras-IsValid r (record r { processors = done.0; started = has_value done.1 })
          (sym (cameras-start_all w r.processors [] ts k.0 k.1)) v)
  where
    P : ProcessingRuntime × Result (Unit {0}) → Type 0
    P x = IsValid x.0
runtime_step-IsValid r stops k v =
    same_cameras-IsValid r (stop_runtime r)
      (sym (cameras-map request_stop r.processors request_stop-KeepsCamera)) v
runtime_step-IsValid r joins k v =
    same_cameras-IsValid r (join_runtime r).0 (sym (cameras-join_all r.processors)) v
runtime_step-IsValid r (goes_on f) k v =
    same_cameras-IsValid r (record r { processors = map f r.processors })
      (sym (cameras-map f r.processors k)) v

runtime_run-from :
    (cs : List RuntimeCall) (r : ProcessingRuntime)
    → AllKeepCameras cs
    → IsValid r
    → IsValid (runtime_run r cs)
unfolding runtime_run
runtime_run-from [] r k v = v
runtime_run-from (c ∷ cs) r k v =
    runtime_run-from cs (runtime_step r c) k.1 (runtime_step-IsValid r c k.0 v)

-- After any calls of add, start, request_stop and join on a new runtime, in any order and refused or not,
-- whatever the threads of its processors do in between that leaves each with its camera: no two of its
-- processors belong to one camera, and there are at most as many as cameras.
pub runtime_run-IsValid :
    (cs : List RuntimeCall) → AllKeepCameras cs → IsValid (runtime_run new_runtime cs)
runtime_run-IsValid cs k = runtime_run-from cs new_runtime k (omega arith, tt)
