-- ===== src/Event/Ring.antt =====
-- src/event/include/paperbreak/event/memory_ring.hpp and src/event/src/memory_ring.cpp: the fixed
-- ring of the last frames of a camera, and the leases on a window of it. A lease and its ring share
-- the lease counters, which stand in the ring here. Times are ticks of the monotonic clock. Sums of
-- slot positions stay below twice the number of slots, and so do not wrap. An empty slot is read as
-- no frame; `IsValid` rules such a read out.
pub mod Plan
pub mod Contents
pub mod Push
pub mod History
pub mod Lease
use paper_breakage_analysis.Base.{
  ℕ, ◌+◌, ◌-◌, ◌%◌, List, [], ◌∷◌, ◌++◌, String, Bool, true, false, not, ◌&&◌, ◌||◌, Option, none,
  some, Result, success, failure, Error, warning, critical, make_error, length, get_or, set,
  replicate, map, ltb, leb, ◌==◌, str_eq, if◌then◌else◌, is_empty, add_u64, sub_u64, inc_u64,
  u64_max,
}
use paper_breakage_analysis.Base.Slots.{gather}
use paper_breakage_analysis.Base.Floating.{Floating}

-- What the ring reads of a `camera::FrameView`; `buffer_capacity` is that of its buffer owner.
pub record Frame : Type 0 where
  pub camera_id : String
  pub sequence_number : ℕ
  pub received_monotonic_time : ℕ
  pub buffer_capacity : ℕ

pub data ShortageReason : Type 0 where
  history_span incomplete_window lease_capacity : ShortageReason

abbrev reason_index : ShortageReason → ℕ
reason_index history_span = 0
reason_index incomplete_window = 1
reason_index lease_capacity = 2

pub data PushStatus : Type 0 where
  inserted_frame overwritten_frame ring_closed : PushStatus

-- `MemoryRingLease::CounterState`
pub record LeaseCounters : Type 0 where
  pub maximum_active_leases : ℕ
  pub maximum_frame_references : ℕ
  pub active_leases : ℕ
  pub frame_references : ℕ

module _ (F : Floating) where
  open F use {Real}

  pub record ShortageNotice : Type 0 where
    pub active : Bool
    pub reason : ShortageReason
    pub camera_id : String
    pub requested_history_seconds : Real
    pub available_history_seconds : Real
    pub requested_frames : ℕ
    pub available_frames : ℕ

  -- The callback says whether it threw.
  pub record RingOptions : Type 0 where
    pub camera_id : String
    pub capacity_frames : ℕ
    pub required_history_seconds : Real
    pub maximum_active_leases : ℕ
    pub maximum_leased_frame_references : ℕ
    pub shortage_callback : Option (ShortageNotice → Bool)

  pub record MemoryRing : Type 0 where
    pub options : RingOptions
    pub slots : List (Option Frame)
    pub counters : LeaseCounters
    pub head : ℕ
    pub size : ℕ
    pub resident_bytes : ℕ
    pub last_sequence_number : Option ℕ
    pub last_monotonic_time : Option ℕ
    pub inserted : ℕ
    pub overwritten : ℕ
    pub rejected : ℕ
    pub observed_sequence_gaps : ℕ
    pub incomplete_windows : ℕ
    pub lease_capacity_rejections : ℕ
    pub callback_failures : ℕ
    pub shortage_reason : ShortageReason
    pub shortage_active : Bool
    pub closed : Bool

abbrev pub lease_error : String → Error
lease_error camera_id =
    record (make_error "EVENT_BUFFER_INCOMPLETE" critical "event" "event.memoryRing.lease" false) {
      source_id = some camera_id;
    }

abbrev pub order_error : String → Error
order_error camera_id =
    record (make_error "PIPELINE_FRAME_ORDER_VIOLATION" warning "event" "event.memoryRing.push"
      false) { source_id = some camera_id }

-- `end - start` where that is positive.
abbrev pub span : ℕ → ℕ → ℕ
span start end = if leb end start then 0 else end - start

-- A count of gaps stops at the largest number.
abbrev pub add_gap : ℕ → ℕ → ℕ
add_gap gaps gap = if ltb (u64_max - gaps) gap then u64_max else gaps + gap

-- The frames that are missing between two sequence numbers, added to the count.
abbrev pub count_gap : ℕ → ℕ → ℕ → ℕ
count_gap gaps previous current =
    let distance = sub_u64 current previous in
    if ltb 1 distance then add_gap gaps (distance - 1) else gaps

abbrev pub read_time : Option Frame → ℕ
read_time none = 0
read_time (some f) = f.received_monotonic_time

abbrev pub read_capacity : Option Frame → ℕ
read_capacity none = 0
read_capacity (some f) = f.buffer_capacity

abbrev pub no_later : Option ℕ → ℕ → Bool
no_later none t = false
no_later (some last) t = leb t last

abbrev pub same_bool : Bool → Bool → Bool
same_bool true b = b
same_bool false b = not b

module _ {F : Floating} where
  open F use {Real, is_finite, is_negative, greater, seconds_of}

  -- The constructor; `none` where it throws.
  unfoldable pub new_ring : RingOptions F → Option (MemoryRing F)
  new_ring o =
      if is_empty o.camera_id
        || o.capacity_frames == 0
        || not (is_finite o.required_history_seconds)
        || is_negative o.required_history_seconds
        || o.maximum_active_leases == 0
        || o.maximum_leased_frame_references == 0
      then none
      else some fresh
    where
      fresh : MemoryRing F
      fresh = record {
        options = o;
        slots = replicate o.capacity_frames none;
        counters = record {
          maximum_active_leases = o.maximum_active_leases;
          maximum_frame_references = o.maximum_leased_frame_references;
          active_leases = 0;
          frame_references = 0;
        };
        head = 0;
        size = 0;
        resident_bytes = 0;
        last_sequence_number = none;
        last_monotonic_time = none;
        inserted = 0;
        overwritten = 0;
        rejected = 0;
        observed_sequence_gaps = 0;
        incomplete_windows = 0;
        lease_capacity_rejections = 0;
        callback_failures = 0;
        shortage_reason = history_span;
        shortage_active = false;
        closed = false;
      }

  abbrev pub slot_time : MemoryRing F → ℕ → ℕ
  slot_time r i = read_time (get_or r.slots i none)

  abbrev pub newest_index : MemoryRing F → ℕ
  newest_index r = (r.head + r.size - 1) % length r.slots

  unfoldable pub actual_history_seconds : MemoryRing F → Real
  actual_history_seconds r =
      if ltb r.size 2
      then seconds_of 0
      else seconds_of (span (slot_time r r.head) (slot_time r (newest_index r)))

  -- A notice goes out when the shortage begins, ends, or changes its reason.
  unfoldable pub update_shortage :
      MemoryRing F
      → Bool
      → ShortageReason
      → Real
      → Real
      → ℕ
      → ℕ
      → MemoryRing F × Option (ShortageNotice F)
  update_shortage r active reason requested available requested_frames available_frames =
      if same_bool r.shortage_active active
        && (not active || reason_index r.shortage_reason == reason_index reason)
      then (r, none)
      else (record r { shortage_active = active; shortage_reason = reason }, some notice)
    where
      notice : ShortageNotice F
      notice = record {
        active = active;
        reason = reason;
        camera_id = r.options.camera_id;
        requested_history_seconds = requested;
        available_history_seconds = available;
        requested_frames = requested_frames;
        available_frames = available_frames;
      }

  unfoldable pub call_back : Option (ShortageNotice F → Bool) → ShortageNotice F → Bool
  call_back none n = false
  call_back (some callback) n = callback n

  unfoldable pub notify : MemoryRing F × Option (ShortageNotice F) → MemoryRing F
  notify (r, none) = r
  notify (r, some n) =
      if call_back r.options.shortage_callback n
      then record r { callback_failures = inc_u64 r.callback_failures }
      else r

  abbrev pub refuses : MemoryRing F → Frame → Bool
  refuses r f =
      not (str_eq f.camera_id r.options.camera_id)
      || no_later r.last_monotonic_time f.received_monotonic_time
      || no_later r.last_sequence_number f.sequence_number

  abbrev pub gaps_after : MemoryRing F → Frame → ℕ
  gaps_after r f = elim r.last_sequence_number [
    | none ↦ r.observed_sequence_gaps
    | some previous ↦ count_gap r.observed_sequence_gaps previous f.sequence_number
  ]

  -- The slot that the frame goes to, and the ring before it stands there.
  unfoldable pub choose_slot : MemoryRing F → MemoryRing F × ℕ × PushStatus
  choose_slot r =
      if ltb r.size (length r.slots)
      then (record r { size = r.size + 1 }, (r.head + r.size) % length r.slots, inserted_frame)
      else (
        record r {
          head = (r.head + 1) % length r.slots;
          resident_bytes = sub_u64 r.resident_bytes (read_capacity (get_or r.slots r.head none));
          overwritten = inc_u64 r.overwritten;
        },
        r.head,
        overwritten_frame,
      )

  unfoldable pub store : MemoryRing F → ℕ → Frame → MemoryRing F
  store r index f = record r {
    resident_bytes = add_u64 r.resident_bytes f.buffer_capacity;
    last_sequence_number = some f.sequence_number;
    last_monotonic_time = some f.received_monotonic_time;
    slots = set r.slots index (some f);
    inserted = inc_u64 r.inserted;
  }

  unfoldable pub place : MemoryRing F → Frame → MemoryRing F × PushStatus
  unfolding choose_slot store
  place r f =
      let gaps = gaps_after r f in
      let (r', index, status) = choose_slot (record r { observed_sequence_gaps = gaps }) in
      (store r' index f, status)

  -- `push` of a frame that it accepts, with the report of a history that is too short.
  unfoldable pub accept : MemoryRing F → Frame → MemoryRing F × Result PushStatus
  accept r f =
      let (r', status) = place r f in
      let actual = actual_history_seconds r' in
      let insufficient =
        r'.size == length r'.slots && greater r'.options.required_history_seconds actual in
      (
        notify (
            update_shortage r' insufficient history_span r'.options.required_history_seconds actual
              (length r'.slots) r'.size),
        success status,
      )

  unfoldable pub push : MemoryRing F → Frame → MemoryRing F × Result PushStatus
  push r f =
      if r.closed
      then (r, success ring_closed)
      else if refuses r f
      then (record r { rejected = inc_u64 r.rejected }, failure (order_error r.options.camera_id))
      else accept r f
