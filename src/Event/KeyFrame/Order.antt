-- ===== src/Event/KeyFrame/Order.antt =====
-- The order of the key frames in `KeyFrameJpegRuntime` of src/event/src/key_frame.cpp.
use mathlib.Core.List.{append-nil}
use native.Mathlib.Nat.{mod-eq_of_lt}
use paper_breakage_analysis.Base.{
  ◌*◌, ◌≡◌, refl, sym, ap₂, subst, ◌∙◌, true, false, ◌||◌, Option, none, List, ◌++◌, map, success,
  arith, length-replicate, if-eq-success, success-inj,
}
use paper_breakage_analysis.Base.Slots.{gather, held}
use paper_breakage_analysis.Event.KeyFrame.{
  Job, JpegRuntime, RuntimeOptions, create, key_frame_error, new_runtime, out_of_range,
}
use paper_breakage_analysis.Event.KeyFrame.Bench.{
  Call, idle, has_ended, run, job_frame, result_frame,
}
use paper_breakage_analysis.Event.KeyFrame.Ring.{queued}
use paper_breakage_analysis.Event.KeyFrame.Steps.{IsOrderly, run_from}

fresh-IsOrderly :
    (o : RuntimeOptions)
    → out_of_range o.job_capacity 256 ≡ false
    → IsOrderly (idle (new_runtime o))
unfolding queued gather
fresh-IsOrderly o h =
    let same = length-replicate {A = Option Job} o.job_capacity none in
    record {
      ring = record {
        some_slots = ground (arith, same);
        all_slots = same;
        few_slots = ground arith;
        read_in = ground (arith, same);
        write_at = sym (mod-eq_of_lt (ground (arith, same)));
        depth_in = omega arith;
        full = refl;
      };
      order = refl;
      ended = λ e. absurd (ground arith);
    }

create-IsOrderly :
    (o : RuntimeOptions) (r : JpegRuntime) → create o ≡ success r → IsOrderly (idle r)
unfolding create
create-IsOrderly o r e =
    let (valid, made) =
      if-eq-success
        (out_of_range o.job_capacity 256
          || out_of_range o.jpeg_quality 100
          || out_of_range o.maximum_dimension 32768
          || out_of_range o.maximum_input_bytes (512 * 1024 * 1024)
          || out_of_range o.maximum_jpeg_bytes (128 * 1024 * 1024))
        (key_frame_error "SYS_CONFIG_INVALID" "keyframe.createRuntime" false)
        (success (new_runtime o)) e in
    subst (λ x. IsOrderly (idle x)) (success-inj made) (fresh-IsOrderly o (ground arith))

-- Whatever calls are made of a new runtime, in any order with the parts of its worker: the frames whose
-- results the callback was given, then the one that the worker has in hand and those in the ring, are the
-- frames of the selections that `submit` accepted, in the order of their submission; none is lost,
-- repeated or overtaken, whether its encoding succeeds, fails or throws.
pub run-keeps_order :
    (o : RuntimeOptions) (r : JpegRuntime) (cs : List Call)
    → create o ≡ success r
    → let after = run (idle r) cs in
      map result_frame after.delivered ++ map job_frame (held after.in_hand ++ queued after.runtime)
      ≡ map job_frame after.accepted
run-keeps_order o r cs e = (run_from (idle r) cs (create-IsOrderly o r e)).order

-- Where the worker has ended after any such calls, the callback was given a result for every frame that
-- was ever accepted, in the order of submission: a stop does not drop the jobs that wait.
pub run-drains :
    (o : RuntimeOptions) (r : JpegRuntime) (cs : List Call)
    → create o ≡ success r
    → has_ended (run (idle r) cs).runtime ≡ true
    → map result_frame (run (idle r) cs).delivered ≡ map job_frame (run (idle r) cs).accepted
unfolding queued gather
run-drains o r cs e h =
    let v = run_from (idle r) cs (create-IsOrderly o r e) in
    let (free, none_left, _) = v.ended h in
    sym (append-nil (map result_frame (run (idle r) cs).delivered))
    ∙ ap₂
        (λ job n.
          map result_frame (run (idle r) cs).delivered
          ++ map job_frame (
              held job
              ++ gather (run (idle r) cs).runtime.jobs (run (idle r) cs).runtime.read_index n))
        (sym free) (sym none_left)
    ∙ v.order
