-- ===== src/Event/Ring/Plan/Fits.antt =====
-- The sizes in a plan of src/event/src/memory_ring.cpp.
use native.Mathlib.Nat.{le-div_iff_mul-le, mul_comm}
use paper_breakage_analysis.Base.{
  ℕ, ◌+◌, ◌*◌, ◌/◌, ◌≤◌, ◌<◌, ◌≡◌, zero, suc, dec_le, >>=-eq-success, success-inj, subst,
  demand-eq-success, refuse_if-eq-success, success, some, arith, ap, ◌∙◌, u64_mod, u64_max, demand,
}
use paper_breakage_analysis.Base.Floating.{Floating}
use paper_breakage_analysis.Event.Ring.Plan.{
  PlanRequest, Plan, CapacityMode, frame_count, duration, checked_add, checked_multiply,
  frame_count_for_duration, base_frames, pipeline_total, lease_total, pool_total, plan_memory_ring,
  plan_sizes, within_limits, config_error,
}

checked_add_lem :
    (a b : ℕ) {c : ℕ} → a < u64_mod → checked_add a b ≡ some c → (c ≡ a + b) × (a + b < u64_mod)
unfolding checked_add
checked_add_lem a b {c} h e = ground arith

product_fits : (a b : ℕ) → 0 < a → b ≤ u64_max / a → a * b < u64_mod
product_fits a b p h =
    let q : b * a ≤ u64_max = (le-div_iff_mul-le p).0 h in omega (arith, q, mul_comm a b)

checked_multiply_lem :
    (a b : ℕ) {c : ℕ} → checked_multiply a b ≡ some c → (c ≡ a * b) × (a * b < u64_mod)
unfolding checked_multiply
checked_multiply_lem zero b {c} e = ground arith
checked_multiply_lem (suc a) b {c} e = elim (dec_le b (u64_max / suc a)) [
  | yes h ↦ ground (arith, product_fits (suc a) b (omega arith) h)
  | no h ↦ ground arith
]

module _ {F : Floating} where
  -- What a frame count of the settings or of a duration is.
  abbrev pub IsBase : PlanRequest F → CapacityMode → ℕ → Type 0
  IsBase q frame_count base = base ≡ q.configured_frame_count
  IsBase q duration base =
      frame_count_for_duration F q.configured_duration_seconds q.configured_frame_rate ≡ some base

  -- The counts of the request are 64-bit numbers.
  pub record IsSized (q : PlanRequest F) : Type 0 where
    pub count : q.configured_frame_count < u64_mod
    pub acquisition : q.acquisition_queue_capacity < u64_mod

  -- Every size is the sum or the product that it stands for.
  pub record IsExact (q : PlanRequest F) (p : Plan F) : Type 0 where
    pub ring :
        (base : ℕ) × IsBase q q.capacity_mode base
        × (0 < base)
        × (p.ring_capacity_frames ≡ base + q.safety_margin_frames)
    pub post :
        frame_count_for_duration F q.post_event_seconds q.configured_frame_rate
        ≡ some p.post_event_frames
    pub pipeline :
        p.pipeline_frames
        ≡ q.acquisition_queue_capacity + q.algorithm_queue_capacity + q.preview_slot_count
          + q.nvme_queue_frames
    pub leases :
        p.event_lease_budget_frames
        ≡ (p.ring_capacity_frames + p.post_event_frames) * q.maximum_concurrent_events
    pub pool :
        p.required_frame_pool_capacity
        ≡ p.ring_capacity_frames + p.pipeline_frames + p.event_lease_budget_frames
    pub bytes :
        p.required_memory_bytes ≡ p.required_frame_pool_capacity * q.frame_buffer_capacity_bytes

  base_frames_lem :
      (q : PlanRequest F) (mode : CapacityMode) {base : ℕ} {seconds : F.Real}
      → ((x y : F.Real) (n : ℕ) → F.ceil_product x y ≡ some n → n < u64_mod)
      → IsSized q
      → base_frames q mode ≡ success (base, seconds)
      → IsBase q mode base × (0 < base) × (base < u64_mod)
  unfolding base_frames frame_count_for_duration
  base_frames_lem q duration {base} c z e =
      let (_, e1) = refuse_if-eq-success _ _ _ e in
      let (frames, ef, e2) = >>=-eq-success _ _ e1 in
      let (k, e3) = refuse_if-eq-success _ _ _ e2 in
      ground (
        arith,
        demand-eq-success _ _ ef,
        k,
        e3,
        c q.configured_duration_seconds q.configured_frame_rate base,
      )
  base_frames_lem q frame_count c z e =
      let (k, e1) = refuse_if-eq-success _ _ _ e in ground (arith, k, e1)

  pipeline_total_lem :
      (q : PlanRequest F) {n : ℕ}
      → IsSized q
      → pipeline_total q ≡ success n
      → (n
          ≡ q.acquisition_queue_capacity + q.algorithm_queue_capacity + q.preview_slot_count
            + q.nvme_queue_frames)
        × (n < u64_mod)
  unfolding pipeline_total
  pipeline_total_lem q {n} z e =
      let (a, ea, e1) = >>=-eq-success _ _ e in
      let (b, eb, e2) = >>=-eq-success _ _ e1 in
      let (ha, la) = checked_add_lem _ _ z.acquisition (demand-eq-success _ _ ea) in
      let (hb, lb) = checked_add_lem _ _ (omega arith) (demand-eq-success _ _ eb) in
      let (hn, ln) = checked_add_lem _ _ (omega arith) (demand-eq-success _ _ e2) in omega arith

  lease_total_lem :
      (q : PlanRequest F) (ring post : ℕ) {n : ℕ}
      → ring < u64_mod
      → lease_total q ring post ≡ success n
      → (n ≡ (ring + post) * q.maximum_concurrent_events) × (n < u64_mod)
  unfolding lease_total
  lease_total_lem q ring post {n} z e =
      let (a, ea, e1) = >>=-eq-success _ _ e in
      let (ha, la) = checked_add_lem ring post z (demand-eq-success _ _ ea) in
      let (hn, ln) = checked_multiply_lem _ _ (demand-eq-success _ _ e1) in
      (hn ∙ ap (λ t. t * q.maximum_concurrent_events) ha, omega (arith, hn, ln))

  pool_total_lem :
      (q : PlanRequest F) (ring pipeline leases : ℕ) {n : ℕ}
      → ring < u64_mod
      → pool_total q ring pipeline leases ≡ success n
      → (n ≡ ring + pipeline + leases) × (n < u64_mod)
  unfolding pool_total
  pool_total_lem q ring pipeline leases {n} z e =
      let (a, ea, e1) = >>=-eq-success _ _ e in
      let (ha, la) = checked_add_lem ring pipeline z (demand-eq-success _ _ ea) in
      let (hn, ln) = checked_add_lem a leases (omega arith) (demand-eq-success _ _ e1) in
      omega arith

  plan_sizes-IsExact :
      (q : PlanRequest F) {p : Plan F}
      → ((x y : F.Real) (n : ℕ) → F.ceil_product x y ≡ some n → n < u64_mod)
      → IsSized q
      → plan_sizes q ≡ success p
      → IsExact q p
  unfolding plan_sizes
  plan_sizes-IsExact q {p} c z e =
      let ((base, seconds), eb, e2) = >>=-eq-success _ _ e in
      let (ring, er, e3) = >>=-eq-success _ _ e2 in
      let (post, ep, e4) =
        >>=-eq-success
          (demand (frame_count_for_duration F q.post_event_seconds q.configured_frame_rate)
            (config_error q "post-frame-overflow"))
          _ e3 in
      let (pipeline, ei, e5) = >>=-eq-success (pipeline_total q) _ e4 in
      let (leases, el, e6) = >>=-eq-success (lease_total q ring post) _ e5 in
      let (pool, eo, e7) = >>=-eq-success (pool_total q ring pipeline leases) _ e6 in
      let (bytes, ey, e8) = >>=-eq-success _ _ e7 in
      let (is_base, positive, hb) = base_frames_lem q q.capacity_mode c z eb in
      let (hr, lr) = checked_add_lem base q.safety_margin_frames hb (demand-eq-success _ _ er) in
      let (hi, li) = pipeline_total_lem q z ei in
      let (hl, ll) = lease_total_lem q ring post (omega arith) el in
      let (ho, lo) = pool_total_lem q ring pipeline leases (omega arith) eo in
      let (hy, ly) =
        checked_multiply_lem pool q.frame_buffer_capacity_bytes (demand-eq-success _ _ ey) in
      subst (IsExact q) (success-inj e8) (record {
        ring = (base, is_base, positive, hr);
        post = demand-eq-success _ _ ep;
        pipeline = hi;
        leases = hl;
        pool = ho;
        bytes = hy;
      })

  -- A plan that is returned is exact, with no wrap-around, and the frame pool and the memory budget
  -- that are configured hold it; the counts of the request and rounded products are 64-bit numbers.
  pub plan-IsExact_and_fits :
      (q : PlanRequest F) {p : Plan F}
      → ((x y : F.Real) (n : ℕ) → F.ceil_product x y ≡ some n → n < u64_mod)
      → IsSized q
      → plan_memory_ring q ≡ success p
      → IsExact q p
        × (p.required_frame_pool_capacity ≤ q.configured_frame_pool_capacity)
        × (p.required_memory_bytes ≤ q.memory_budget_bytes)
  unfolding plan_memory_ring within_limits
  plan-IsExact_and_fits q {p} c z e =
      let (_, e1) = refuse_if-eq-success _ _ _ e in
      let (sizes, es, e2) = >>=-eq-success (plan_sizes q) _ e1 in
      let (pool_fits, e3) = refuse_if-eq-success _ _ _ e2 in
      let (budget_fits, e4) = refuse_if-eq-success _ _ _ e3 in
      subst
        (λ x.
          IsExact q x
          × (x.required_frame_pool_capacity ≤ q.configured_frame_pool_capacity)
          × (x.required_memory_bytes ≤ q.memory_budget_bytes))
        (success-inj e4)
        (plan_sizes-IsExact q c z es, ground (arith, pool_fits), ground (arith, budget_fits))
