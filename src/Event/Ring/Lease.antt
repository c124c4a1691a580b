-- ===== src/Event/Ring/Lease.antt =====
-- src/event/src/memory_ring.cpp: the leases on a time window of the ring, their release, and the
-- end of the ring.
pub mod Segment
pub mod Window
pub mod Accounts
use paper_breakage_analysis.Base.{
  ℕ, ◌+◌, ◌-◌, List, [], ◌∷◌, Bool, true, false, not, ◌&&◌, ◌||◌, Option, none, some, Result,
  success, failure, length, map, ltb, leb, ◌==◌, if◌then◌else◌, sub_u64, inc_u64,
}
use paper_breakage_analysis.Base.Slots.{gather}
use paper_breakage_analysis.Base.Floating.{Floating}
use paper_breakage_analysis.Event.Ring.{
  Frame, MemoryRing, LeaseCounters, ShortageNotice, incomplete_window, lease_capacity, lease_error,
  span, count_gap, slot_time, newest_index, actual_history_seconds, update_shortage, notify,
}

pub record WindowInfo : Type 0 where
  pub requested_start : ℕ
  pub requested_end : ℕ
  pub available_start : ℕ
  pub available_end : ℕ
  pub first_sequence_number : ℕ
  pub last_sequence_number : ℕ
  pub sequence_gaps : ℕ
  pub complete : Bool

-- `holds_counters` is whether the pointer to the counters is set.
pub record Lease : Type 0 where
  pub frames : List Frame
  pub info : WindowInfo
  pub holds_counters : Bool

abbrev pub in_window : ℕ → ℕ → Frame → Bool
in_window start end f = leb start f.received_monotonic_time && leb f.received_monotonic_time end

-- The frames of a list in the window, in order.
unfoldable pub select : ℕ → ℕ → List Frame → List Frame
select start end [] = []
select start end (f ∷ fs) =
    let rest = select start end fs in if in_window start end f then f ∷ rest else rest

-- The gaps between neighbours.
unfoldable pub gaps_between : ℕ → List Frame → ℕ
gaps_between gaps [] = gaps
gaps_between gaps (f ∷ []) = gaps
gaps_between gaps (f ∷ g ∷ fs) =
    gaps_between (count_gap gaps f.sequence_number g.sequence_number) (g ∷ fs)

abbrev pub first_sequence : List Frame → ℕ
first_sequence [] = 0
first_sequence (f ∷ fs) = f.sequence_number

abbrev pub last_sequence : List Frame → ℕ
last_sequence [] = 0
last_sequence (f ∷ []) = f.sequence_number
last_sequence (f ∷ g ∷ fs) = last_sequence (g ∷ fs)

abbrev pub is_nil {ℓ} : {A : Type ℓ} → List A → Bool
is_nil [] = true
is_nil (x ∷ xs) = false

-- `MemoryRingLease::release`, with the counters that it changes.
unfoldable pub release : LeaseCounters → Lease → LeaseCounters × Lease
release c l = if not l.holds_counters then (c, l) else (
  record c {
    active_leases = if ltb 0 c.active_leases then c.active_leases - 1 else c.active_leases;
    frame_references =
        if leb (length l.frames) c.frame_references
        then c.frame_references - length l.frames
        else 0;
  },
  record l { frames = []; holds_counters = false },
)

abbrev pub has_capacity : LeaseCounters → List Frame → Bool
has_capacity c frames =
    ltb c.active_leases c.maximum_active_leases
    && leb (length frames) (sub_u64 c.maximum_frame_references c.frame_references)

abbrev pub charge : LeaseCounters → List Frame → LeaseCounters
charge c frames = record c {
  active_leases = c.active_leases + 1;
  frame_references = c.frame_references + length frames;
}

module _ {F : Floating} where
  open F use {Real, seconds_of}

  -- The frames that the loop of `lease_window` copies.
  unfoldable pub window_frames : MemoryRing F → ℕ → ℕ → List Frame
  window_frames r start end =
      if r.closed || r.size == 0 then [] else select start end (gather r.slots r.head r.size)

  unfoldable pub window_info : MemoryRing F → ℕ → ℕ → List Frame → WindowInfo
  window_info r start end frames = record {
    requested_start = start;
    requested_end = end;
    available_start = slot_time r r.head;
    available_end = slot_time r (newest_index r);
    first_sequence_number = first_sequence frames;
    last_sequence_number = last_sequence frames;
    sequence_gaps = gaps_between 0 frames;
    complete =
        not (is_nil frames)
        && leb (slot_time r r.head) start
        && leb end (slot_time r (newest_index r));
  }

  -- The shortage that the window shows, counted.
  unfoldable pub assess :
      MemoryRing F → ℕ → ℕ → List Frame → MemoryRing F × Option (ShortageNotice F)
  assess r start end frames =
      if r.closed || r.size == 0
      then update_shortage (record r { incomplete_windows = inc_u64 r.incomplete_windows }) true
          incomplete_window (seconds_of (span start end)) (seconds_of 0) 0 0
      else if not (window_info r start end frames).complete
      then update_shortage (record r { incomplete_windows = inc_u64 r.incomplete_windows }) true
          incomplete_window (seconds_of (span start end)) (actual_history_seconds r) r.size
          (length frames)
      else update_shortage r false incomplete_window (seconds_of (span start end))
          (actual_history_seconds r) (length frames) (length frames)

  -- The second half of `lease_window`, with the notice that is due.
  unfoldable pub grant :
      MemoryRing F × Option (ShortageNotice F)
      → ℕ
      → ℕ
      → WindowInfo
      → List Frame
      → MemoryRing F × Result Lease
  grant (r, notice) start end info [] =
      (notify (r, notice), failure (lease_error r.options.camera_id))
  grant (r, notice) start end info (f ∷ fs) =
      if has_capacity r.counters (f ∷ fs)
      then (
        notify (record r { counters = charge r.counters (f ∷ fs) }, notice),
        success (record { frames = f ∷ fs; info = info; holds_counters = true }),
      )
      else (
        notify (
            update_shortage
              (record r { lease_capacity_rejections = inc_u64 r.lease_capacity_rejections }) true
              lease_capacity (seconds_of (span start end)) (actual_history_seconds r)
              (length (f ∷ fs)) 0),
        failure (lease_error r.options.camera_id),
      )

  unfoldable pub lease_window : MemoryRing F → ℕ → ℕ → MemoryRing F × Result Lease
  lease_window r start end =
      if ltb end start
      then (r, failure (lease_error r.options.camera_id))
      else let frames = window_frames r start end in
        grant (assess r start end frames) start end (window_info r start end frames) frames

  unfoldable pub close : MemoryRing F → MemoryRing F
  close r = if r.closed then r else record r {
    slots = map (λ _. none) r.slots;
    head = 0;
    size = 0;
    resident_bytes = 0;
    closed = true;
  }
