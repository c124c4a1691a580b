-- ===== src/Event/Ring/Plan.antt =====
-- src/event/src/memory_ring.cpp: `plan_memory_ring`, the sizes of the ring, of the frame pool and
-- of the memory that a camera's settings ask for.
pub mod Fits
use paper_breakage_analysis.Base.{
  ℕ, ◌+◌, ◌-◌, ◌*◌, ◌/◌, ◌%◌, [], ◌∷◌, ◌++◌, String, Bool, true, false, not, ◌&&◌, ◌||◌, Option,
  none, some, Result, success, failure, Error, error, make_error, detail, text, number, demand,
  refuse_if, ◌>>=◌, ltb, ◌==◌, if◌then◌else◌, is_empty, add_u64, u64_max, u64_mod,
}
use paper_breakage_analysis.Base.Floating.{Floating}

pub data CapacityMode : Type 0 where
  frame_count duration : CapacityMode

module _ (F : Floating) where
  open F use {Real}

  pub record PlanRequest : Type 0 where
    pub camera_id : String
    pub capacity_mode : CapacityMode
    pub configured_frame_count : ℕ
    pub configured_duration_seconds : Real
    pub configured_frame_rate : Real
    pub safety_margin_frames : ℕ
    pub frame_buffer_capacity_bytes : ℕ
    pub acquisition_queue_capacity : ℕ
    pub algorithm_queue_capacity : ℕ
    pub preview_slot_count : ℕ
    pub nvme_queue_frames : ℕ
    pub post_event_seconds : Real
    pub maximum_concurrent_events : ℕ
    pub configured_frame_pool_capacity : ℕ
    pub memory_budget_bytes : ℕ

  pub record Plan : Type 0 where
    pub camera_id : String
    pub ring_capacity_frames : ℕ
    pub post_event_frames : ℕ
    pub pipeline_frames : ℕ
    pub event_lease_budget_frames : ℕ
    pub required_frame_pool_capacity : ℕ
    pub required_memory_bytes : ℕ
    pub planned_history_seconds : Real

-- `none` where the result does not fit.
unfoldable pub checked_add : ℕ → ℕ → Option ℕ
checked_add left right = if ltb (u64_max - left) right then none else some (add_u64 left right)

unfoldable pub checked_multiply : ℕ → ℕ → Option ℕ
checked_multiply left right =
    if not (left == 0) && ltb (u64_max / left) right then none else some ((left * right) % u64_mod)

-- `none` also where there is no such number.
unfoldable pub frame_count_for_duration : (F : Floating) → F.Real → F.Real → Option ℕ
frame_count_for_duration F seconds rate =
    if not (F.is_finite seconds)
      || not (F.is_finite rate)
      || F.is_negative seconds
      || not (F.is_positive rate)
    then none
    else F.ceil_product seconds rate

module _ {F : Floating} where
  open F use {Real, is_finite, is_positive, quotient}

  unfoldable pub config_error : PlanRequest F → String → Error
  config_error q reason =
      let e = make_error "SYS_CONFIG_INVALID" error "event" "event.memoryRing.plan" false in
      record e {
        source_id = if is_empty q.camera_id then none else some q.camera_id;
        details = detail "reason" (text reason) ∷ [];
      }

  -- The frames of the ring before the margin, and the time that they stand for.
  unfoldable pub base_frames : PlanRequest F → CapacityMode → Result (ℕ × Real)
  base_frames q duration =
      refuse_if
        (not (is_finite q.configured_duration_seconds)
          || not (is_positive q.configured_duration_seconds))
        (config_error q "invalid-duration")
        (do
          frames ←
              demand
                (frame_count_for_duration F q.configured_duration_seconds q.configured_frame_rate)
                (config_error q "ring-frame-overflow")
          refuse_if (frames == 0) (config_error q "ring-frame-overflow")
              (success (frames, q.configured_duration_seconds)))
  base_frames q frame_count =
      refuse_if (q.configured_frame_count == 0) (config_error q "invalid-frame-count") (
        success
          (q.configured_frame_count, quotient q.configured_frame_count q.configured_frame_rate))

  -- The frames in the queues between the camera and the ring.
  unfoldable pub pipeline_total : PlanRequest F → Result ℕ
  pipeline_total q = do
    a ←
        demand (checked_add q.acquisition_queue_capacity q.algorithm_queue_capacity)
          (config_error q "pipeline-frame-overflow")
    b ← demand (checked_add a q.preview_slot_count) (config_error q "pipeline-frame-overflow")
    demand (checked_add b q.nvme_queue_frames) (config_error q "pipeline-frame-overflow")

  unfoldable pub lease_total : PlanRequest F → ℕ → ℕ → Result ℕ
  lease_total q ring post = do
    one ← demand (checked_add ring post) (config_error q "lease-frame-overflow")
    demand (checked_multiply one q.maximum_concurrent_events)
        (config_error q "lease-frame-overflow")

  unfoldable pub pool_total : PlanRequest F → ℕ → ℕ → ℕ → Result ℕ
  pool_total q ring pipeline leases = do
    a ← demand (checked_add ring pipeline) (config_error q "pool-frame-overflow")
    demand (checked_add a leases) (config_error q "pool-frame-overflow")

  abbrev is_plan_input_invalid : PlanRequest F → Bool
  is_plan_input_invalid q =
      is_empty q.camera_id
      || not (is_finite q.configured_frame_rate)
      || not (is_positive q.configured_frame_rate)
      || q.frame_buffer_capacity_bytes == 0
      || q.maximum_concurrent_events == 0
      || q.configured_frame_pool_capacity == 0
      || q.memory_budget_bytes == 0

  -- An error with the two sizes that disagree.
  abbrev shortfall : PlanRequest F → String → String → ℕ → String → ℕ → Error
  shortfall q reason needed n given m =
      let e = config_error q reason in
      record e { details = e.details ++ (detail needed (number n) ∷ detail given (number m) ∷ []) }

  -- The sizes that a request needs.
  unfoldable pub plan_sizes : PlanRequest F → Result (Plan F)
  plan_sizes q = do
    (base, seconds) ← base_frames q q.capacity_mode
    ring ← demand (checked_add base q.safety_margin_frames) (config_error q "ring-frame-overflow")
    post ←
        demand (frame_count_for_duration F q.post_event_seconds q.configured_frame_rate)
          (config_error q "post-frame-overflow")
    pipeline ← pipeline_total q
    leases ← lease_total q ring post
    pool ← pool_total q ring pipeline leases
    bytes ←
        demand (checked_multiply pool q.frame_buffer_capacity_bytes)
          (config_error q "memory-byte-overflow")
    success (record {
      camera_id = q.camera_id;
      ring_capacity_frames = ring;
      post_event_frames = post;
      pipeline_frames = pipeline;
      event_lease_budget_frames = leases;
      required_frame_pool_capacity = pool;
      required_memory_bytes = bytes;
      planned_history_seconds = seconds;
    })

  -- The sizes against what is configured.
  unfoldable pub within_limits : PlanRequest F → Plan F → Result (Plan F)
  within_limits q p =
      refuse_if (ltb q.configured_frame_pool_capacity p.required_frame_pool_capacity)
        (shortfall q "frame-pool-insufficient" "requiredFrames" p.required_frame_pool_capacity
          "configuredFrames" q.configured_frame_pool_capacity)
        (refuse_if (ltb q.memory_budget_bytes p.required_memory_bytes)
          (shortfall q "memory-budget-exceeded" "requiredBytes" p.required_memory_bytes
            "budgetBytes" q.memory_budget_bytes)
          (success p))

  unfoldable pub plan_memory_ring : PlanRequest F → Result (Plan F)
  plan_memory_ring q =
      refuse_if (is_plan_input_invalid q) (config_error q "invalid-plan-input")
        (plan_sizes q >>= within_limits q)
