-- ===== src/Event/KeyFrame/Ring.antt =====
-- The ring of jobs of src/event/src/key_frame.cpp as the list of what stands in it.
use mathlib.Core.List.{append_assoc, append-nil}
use native.Mathlib.Nat.{mod-lt, mod-eq_of_lt, mod-add-mod}
use paper_breakage_analysis.Base.{
  ◌+◌, ◌-◌, ◌%◌, ◌≤◌, ◌<◌, ◌≡◌, refl, sym, ap, ap₂, ◌∙◌, Option, none, some, List, [], ◌∷◌, ◌++◌,
  arith, length, length-set, length-append, set, get_or, ◌==◌, if-holds,
}
use paper_breakage_analysis.Base.Slots.{gather, gather-push, gather-pop, gather-advance, held}
use paper_breakage_analysis.Event.KeyFrame.{Job, JpegRuntime, place_job, place_jobs, take_job}

-- The jobs in the ring, the next one first.
unfoldable pub queued : JpegRuntime → List Job
queued r = gather r.jobs r.read_index r.depth

pub record IsRing (r : JpegRuntime) : Type 0 where
  pub some_slots : 0 < length r.jobs
  pub all_slots : length r.jobs ≡ r.options.job_capacity
  pub few_slots : r.options.job_capacity ≤ 256
  pub read_in : r.read_index < length r.jobs
  pub write_at : r.write_index ≡ (r.read_index + r.depth) % length r.jobs
  pub depth_in : r.depth ≤ length r.jobs
  pub full : length (queued r) ≡ r.depth

queued-place_job :
    (r : JpegRuntime) (j : Job)
    → IsRing r
    → r.depth < length r.jobs
    → queued (place_job r j) ≡ queued r ++ (j ∷ [])
unfolding queued place_job
queued-place_job r j v h =
    ap₂ (λ i n. gather (set r.jobs i (some j)) r.read_index n) v.write_at (omega arith)
    ∙ gather-push r.jobs r.read_index r.depth j h

place_job-IsRing :
    (r : JpegRuntime) (j : Job) → IsRing r → r.depth < length r.jobs → IsRing (place_job r j)
unfolding place_job
place_job-IsRing r j v h =
    let same = length-set r.jobs r.write_index (some j) in
    record {
      some_slots = omega (arith, same, v.some_slots);
      all_slots = same ∙ v.all_slots;
      few_slots = v.few_slots;
      read_in = omega (arith, same, v.read_in);
      write_at =
          ap (λ i. (i + 1) % length r.jobs) v.write_at
          ∙ mod-add-mod (r.read_index + r.depth) (length r.jobs) 1
          ∙ ap₂ ◌%◌ (omega arith) (sym same);
      depth_in = omega (arith, same, h);
      full =
          ap length (queued-place_job r j v h)
          ∙ length-append (queued r) (j ∷ [])
          ∙ omega (arith, v.full);
    }

placed_room :
    (r : JpegRuntime) (j : Job) (js : List Job)
    → r.depth + length (j ∷ js) ≤ length r.jobs
    → (place_job r j).depth + length js ≤ length (place_job r j).jobs
unfolding place_job
placed_room r j js h = omega (arith, length-set r.jobs r.write_index (some j))

-- Jobs for which there is room are put behind the others.
pub queued-place_jobs :
    (r : JpegRuntime) (js : List Job)
    → IsRing r
    → r.depth + length js ≤ length r.jobs
    → IsRing (place_jobs r js) × (queued (place_jobs r js) ≡ queued r ++ js)
unfolding place_jobs
queued-place_jobs r [] v h = (v, sym (append-nil (queued r)))
queued-place_jobs r (j ∷ js) v h =
    let room : r.depth < length r.jobs = omega arith in
    let same = length-set r.jobs r.write_index (some j) in
    let rest =
      queued-place_jobs (place_job r j) js (place_job-IsRing r j v room) (placed_room r j js h) in
    (
      rest.0,
      rest.1
          ∙ ap (λ l. l ++ js) (queued-place_job r j v room)
          ∙ append_assoc (queued r) (j ∷ []) js,
    )

-- A job that is taken is the first one, and the others stay behind it.
pub take_job-first :
    (r : JpegRuntime)
    → IsRing r
    → 0 < r.depth
    → IsRing (take_job r).0 × (held (take_job r).1 ++ queued (take_job r).0 ≡ queued r)
unfolding take_job queued
take_job-first r v p =
    if-holds P (r.depth == 0) (λ e. absurd (ground arith))
      (λ e.
        let (job, found, whole, rest) = gather-pop r.jobs r.read_index r.depth p v.full in
        let same = length-set r.jobs r.read_index none in
        let kept =
          gather-advance r.jobs r.read_index (r.depth - 1) v.read_in (omega (arith, v.depth_in)) in
        let first : get_or r.jobs r.read_index none ≡ some job =
          ap (λ i. get_or r.jobs i none) (sym (mod-eq_of_lt v.read_in)) ∙ found in
        (
          record {
            some_slots = omega (arith, same, v.some_slots);
            all_slots = same ∙ v.all_slots;
            few_slots = v.few_slots;
            read_in = omega (arith, same, mod-lt (r.read_index + 1) v.some_slots);
            write_at =
                v.write_at
                ∙ ap (λ n. n % length r.jobs) (omega (arith, p))
                ∙ sym (mod-add-mod (r.read_index + 1) (length r.jobs) (r.depth - 1))
                ∙ ap (◌%◌ ((r.read_index + 1) % length r.jobs + (r.depth - 1))) (sym same);
            depth_in = omega (arith, same, v.depth_in);
            full = ap length kept ∙ rest;
          },
          ap₂ (λ o l. held o ++ l) first kept ∙ sym whole,
        ))
  where
    P : JpegRuntime × Option Job → Type 0
    P t = IsRing t.0 × (held t.1 ++ queued t.0 ≡ queued r)

-- Only other fields change.
pub same-IsRing :
    (r r' : JpegRuntime)
    → r'.options ≡ r.options
    → r'.jobs ≡ r.jobs
    → r'.read_index ≡ r.read_index
    → r'.write_index ≡ r.write_index
    → r'.depth ≡ r.depth
    → IsRing r
    → IsRing r' × (queued r' ≡ queued r)
unfolding queued
same-IsRing r r' a b c d e v = (
  record {
    some_slots = rw b v.some_slots;
    all_slots = rw (a, b) v.all_slots;
    few_slots = rw a v.few_slots;
    read_in = rw (b, c) v.read_in;
    write_at = rw (b, c, d, e) v.write_at;
    depth_in = rw (b, e) v.depth_in;
    full = rw (b, c, e) v.full;
  },
  rw (b, c, e) refl,
)
