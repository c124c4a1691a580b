-- ===== src/Event/KeyFrame/Steps.antt =====
-- The order of the jobs under each call on the runtime of src/event/src/key_frame.cpp and each part of
-- its worker.
use mathlib.Core.List.{append_assoc, map-append}
use paper_breakage_analysis.Base.{
  ℕ, ◌+◌, ◌-◌, ◌≤◌, ◌<◌, ◌≡◌, refl, sym, ap, ap₂, subst, ◌∙◌, Bool, true, false, not, ◌&&◌, ◌||◌,
  Option, none, some, List, [], ◌∷◌, ◌++◌, map, Result, arith, length, length-map, ltb, ◌==◌,
  if-holds, dec_lt, sub_u64, sub_u64_of_le,
}
use paper_breakage_analysis.Base.Slots.{held}
use paper_breakage_analysis.Event.KeyFrameSelection.{KeyFrameSelectionResult, is_invalid_selection}
use paper_breakage_analysis.Event.KeyFrame.{
  Job, JpegRuntime, EncodeAnswer, start, submit, place_job, place_jobs, jobs_of, request_stop,
  take_job, settle, output_of,
}
use paper_breakage_analysis.Event.KeyFrame.Bench.{
  Call, Bench, has_ended, note_submit, turn, step, run, job_frame, result_frame,
}
use paper_breakage_analysis.Event.KeyFrame.Ring.{
  queued, IsRing, queued-place_jobs, take_job-first, same-IsRing,
}

-- A bench on whose ring the jobs stand that were accepted and are neither delivered nor in hand, in
-- their order; a worker that ended left none.
pub record IsOrderly (b : Bench) : Type 0 where
  pub ring : IsRing b.runtime
  pub order :
      map result_frame b.delivered ++ map job_frame (held b.in_hand ++ queued b.runtime)
      ≡ map job_frame b.accepted
  pub ended :
      has_ended b.runtime ≡ true
      → (b.in_hand ≡ none) × (b.runtime.depth ≡ 0) × (b.runtime.stopping ≡ true)

-- A runtime that differs from that of a bench only in its counters and flags.
swap_runtime :
    (b : Bench) (r : JpegRuntime)
    → IsOrderly b
    → r.options ≡ b.runtime.options
    → r.jobs ≡ b.runtime.jobs
    → r.read_index ≡ b.runtime.read_index
    → r.write_index ≡ b.runtime.write_index
    → r.depth ≡ b.runtime.depth
    → (has_ended r ≡ true → (has_ended b.runtime ≡ true) × (r.stopping ≡ true))
    → IsOrderly (record b { runtime = r })
swap_runtime b r v a c d e f g =
    let (ring, same) = same-IsRing b.runtime r a c d e f v.ring in
    record {
      ring = ring;
      order = rw same v.order;
      ended = λ h.
          let (was, stopping) = g h in
          let (empty_hand, none_left, _) = v.ended was in (empty_hand, f ∙ none_left, stopping);
    }

start-IsOrderly :
    (b : Bench) (thread : Bool)
    → IsOrderly b
    → IsOrderly (record b { runtime = (start b.runtime thread).0 })
unfolding start
start-IsOrderly b thread v =
    if-holds P b.runtime.started (λ e. v)
      (λ e.
        if-holds P thread
          (λ f. swap_runtime b _ v refl refl refl refl refl (λ h. absurd (ground arith)))
          (λ f. swap_runtime b _ v refl refl refl refl refl (λ h. absurd (ground arith))))
  where
    P : JpegRuntime × Result (Unit {0}) → Type 0
    P t = IsOrderly (record b { runtime = t.0 })

has_ended-place_jobs : (r : JpegRuntime) (js : List Job) → has_ended (place_jobs r js) ≡ has_ended r
unfolding place_jobs place_job
has_ended-place_jobs r [] = refl
has_ended-place_jobs r (j ∷ js) = has_ended-place_jobs (place_job r j) js

length-jobs_of : (s : KeyFrameSelectionResult) → length (jobs_of s) ≡ length s.frames
unfolding jobs_of
length-jobs_of s = length-map s.frames _

place_jobs-IsOrderly :
    (b : Bench) (s : KeyFrameSelectionResult)
    → IsOrderly b
    → b.runtime.stopping ≡ false
    → b.runtime.depth + length s.frames ≤ b.runtime.options.job_capacity
    → IsOrderly (record b {
      runtime = place_jobs b.runtime (jobs_of s);
      accepted = b.accepted ++ jobs_of s;
    })
place_jobs-IsOrderly b s v running room =
    let fits =
      queued-place_jobs b.runtime (jobs_of s) v.ring
        (omega (arith, length-jobs_of s, v.ring.all_slots, room)) in
    record {
      ring = fits.0;
      order =
          ap (λ l. map result_frame b.delivered ++ map job_frame (held b.in_hand ++ l)) fits.1
          ∙ ap (λ l. map result_frame b.delivered ++ map job_frame l)
              (sym (append_assoc (held b.in_hand) (queued b.runtime) (jobs_of s)))
          ∙ ap (◌++◌ (map result_frame b.delivered))
              (map-append job_frame (held b.in_hand ++ queued b.runtime) (jobs_of s))
          ∙ sym (
              append_assoc (map result_frame b.delivered)
                (map job_frame (held b.in_hand ++ queued b.runtime)) (map job_frame (jobs_of s)))
          ∙ ap (λ l. l ++ map job_frame (jobs_of s)) v.order
          ∙ sym (map-append job_frame b.accepted (jobs_of s));
      ended = λ h.
          let ended = v.ended (sym (has_ended-place_jobs b.runtime (jobs_of s)) ∙ h) in absurd (cc);
    }

submit-IsOrderly :
    (b : Bench) (s : KeyFrameSelectionResult) (memory : Bool)
    → IsOrderly b
    → IsOrderly (note_submit b (jobs_of s) (submit b.runtime s memory))
unfolding submit
submit-IsOrderly b s memory v =
    let r = b.runtime in
    let full : sub_u64 r.options.job_capacity r.depth ≡ r.options.job_capacity - r.depth =
      sub_u64_of_le _ _ (omega (arith, v.ring.depth_in, v.ring.all_slots))
        (omega (arith, v.ring.few_slots)) in
    if-holds P (is_invalid_selection s) (λ e. v)
      (λ e.
        if-holds P (not memory) (λ f. refused)
          (λ f.
            if-holds P
              (not r.started
                || r.stopping
                || ltb (sub_u64 r.options.job_capacity r.depth) (length s.frames))
              (λ g. refused)
              (λ g.
                let placed =
                  place_jobs-IsOrderly b s v (ground arith)
                    (ground (arith, full, v.ring.depth_in, v.ring.all_slots)) in
                swap_runtime _ _ placed refl refl refl refl refl (λ h. (h, (placed.ended h).2)))))
  where
    P : JpegRuntime × Result (Unit {0}) → Type 0
    P t = IsOrderly (note_submit b (jobs_of s) t)

    refused : {n : ℕ} → IsOrderly (record b { runtime = record b.runtime { rejected = n } })
    refused = swap_runtime b _ v refl refl refl refl refl (λ h. (h, (v.ended h).2))

request_stop-IsOrderly :
    (b : Bench) → IsOrderly b → IsOrderly (record b { runtime = request_stop b.runtime })
unfolding request_stop
request_stop-IsOrderly b v =
    if-holds (λ r. IsOrderly (record b { runtime = r })) b.runtime.started
      (λ e. swap_runtime b _ v refl refl refl refl refl (λ h. (h, refl))) (λ e. v)

result_frame-output_of :
    (j : Job) (answer : EncodeAnswer) → result_frame (output_of j answer) ≡ job_frame j
unfolding output_of
result_frame-output_of j (EncodeAnswer.encoded jpeg) = refl
result_frame-output_of j (EncodeAnswer.refused e) = refl
result_frame-output_of j EncodeAnswer.threw = refl

has_ended-take_job : (r : JpegRuntime) → 0 < r.depth → has_ended (take_job r).0 ≡ has_ended r
unfolding take_job
has_ended-take_job r p = if-holds P (r.depth == 0) (λ e. absurd (ground arith)) (λ e. refl)
  where
    P : JpegRuntime × Option Job → Type 0
    P t = has_ended t.0 ≡ has_ended r

take_first-IsOrderly :
    (b : Bench)
    → IsOrderly b
    → b.in_hand ≡ none
    → has_ended b.runtime ≡ false
    → 0 < b.runtime.depth
    → IsOrderly (record b { runtime = (take_job b.runtime).0; in_hand = (take_job b.runtime).1 })
take_first-IsOrderly b v free alive p =
    let (ring, first) = take_job-first b.runtime v.ring p in
    record {
      ring = ring;
      order =
          ap (λ l. map result_frame b.delivered ++ map job_frame l)
            (first ∙ ap (λ o. held o ++ queued b.runtime) (sym free))
          ∙ v.order;
      ended = λ h. let same = has_ended-take_job b.runtime p in absurd (cc);
    }

-- A free worker that finds no job waits on, or ends where it was told to stop.
find_none-IsOrderly :
    (b : Bench)
    → IsOrderly b
    → b.in_hand ≡ none
    → has_ended b.runtime ≡ false
    → b.runtime.depth ≡ 0
    → IsOrderly (record b { runtime = (take_job b.runtime).0; in_hand = (take_job b.runtime).1 })
unfolding take_job
find_none-IsOrderly b v free alive z =
    if-holds P (b.runtime.depth == 0)
      (λ e.
        if-holds P b.runtime.stopping
          (λ f.
            subst (λ o. IsOrderly (record b { runtime = ended_now; in_hand = o })) free
              (finished f))
          (λ f. subst (λ o. IsOrderly (record b { in_hand = o })) free v))
      (λ e. absurd (ground arith))
  where
    P : JpegRuntime × Option Job → Type 0
    P t = IsOrderly (record b { runtime = t.0; in_hand = t.1 })

    ended_now : JpegRuntime
    ended_now = record b.runtime { completed_run = true }

    finished : b.runtime.stopping ≡ true → IsOrderly (record b { runtime = ended_now })
    finished f =
        let (ring, same) = same-IsRing b.runtime ended_now refl refl refl refl refl v.ring in
        record { ring = ring; order = rw same v.order; ended = λ h. (free, z, f) }

deliver-IsOrderly :
    (b : Bench) (j : Job) (answer : EncodeAnswer) (threw : Bool)
    → IsOrderly b
    → b.in_hand ≡ some j
    → IsOrderly (turn b (some j) answer threw)
unfolding settle
deliver-IsOrderly b j answer threw v e =
    let settled = settle b.runtime answer threw in
    let (ring, same) = same-IsRing b.runtime settled refl refl refl refl refl v.ring in
    record {
      ring = ring;
      order =
          ap (λ l. l ++ map job_frame (queued settled))
            (map-append result_frame b.delivered (output_of j answer ∷ []))
          ∙ append_assoc (map result_frame b.delivered) (result_frame (output_of j answer) ∷ []) _
          ∙ ap₂ (λ x l. map result_frame b.delivered ++ (x ∷ map job_frame l))
              (result_frame-output_of j answer) same
          ∙ ap (λ o. map result_frame b.delivered ++ map job_frame (held o ++ queued b.runtime))
              (sym e)
          ∙ v.order;
      ended = λ h. let free = (v.ended h).0 in absurd (cc);
    }

turn-IsOrderly :
    (b : Bench) (o : Option Job) (answer : EncodeAnswer) (threw : Bool)
    → IsOrderly b
    → b.in_hand ≡ o
    → has_ended b.runtime ≡ false
    → IsOrderly (turn b o answer threw)
turn-IsOrderly b none answer threw v e alive = elim (dec_lt 0 b.runtime.depth) [
  | yes p ↦ take_first-IsOrderly b v e alive p
  | no p ↦ find_none-IsOrderly b v e alive (omega arith)
]
turn-IsOrderly b (some j) answer threw v e alive = deliver-IsOrderly b j answer threw v e

step-IsOrderly : (b : Bench) (c : Call) → IsOrderly b → IsOrderly (step b c)
unfolding step
step-IsOrderly b (Call.starts thread) v = start-IsOrderly b thread v
step-IsOrderly b (Call.submits s memory) v = submit-IsOrderly b s memory v
step-IsOrderly b Call.stops v = request_stop-IsOrderly b v
step-IsOrderly b (Call.turns answer threw) v =
    if-holds IsOrderly (b.runtime.started && not b.runtime.completed_run)
      (λ e. turn-IsOrderly b b.in_hand answer threw v refl (ground arith)) (λ e. v)

pub run_from : (b : Bench) (cs : List Call) → IsOrderly b → IsOrderly (run b cs)
unfolding run
run_from b [] v = v
run_from b (c ∷ cs) v = run_from (step b c) cs (step-IsOrderly b c v)
