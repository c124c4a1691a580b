-- ===== src/Event/Examples.antt =====
-- The theorems on the ring and on the candidate events at concrete inputs. The numbers of the
-- examples stand for the floating-point numbers.
use paper_breakage_analysis.Base.{
  ℕ, ◌+◌, ◌*◌, ◌/◌, ◌≤◌, ◌≡◌, ◌≢◌, refl, List, [], ◌∷◌, true, false, ◌&&◌, none, some, success,
  arith, ltb, leb, ◌==◌, if◌then◌else◌,
}
use paper_breakage_analysis.Base.Floating.{Floating}
use paper_breakage_analysis.Base.Slots.{gather}
use paper_breakage_analysis.Event.Ring
use paper_breakage_analysis.Event.Ring.{
  Frame, RingOptions, MemoryRing, new_ring, push, accept, place, choose_slot, store, notify,
  call_back, update_shortage, actual_history_seconds,
}
use paper_breakage_analysis.Event.Ring.Contents.{contents, IsValid, new_ring-IsValid}
use paper_breakage_analysis.Event.Ring.History.{
  push_all, push_all-contents, push-IsValid, accepted, last_of,
}
use paper_breakage_analysis.Event.Ring.Lease.{
  Lease, select, lease_window, window_frames, window_info, assess, grant, gaps_between,
}
use paper_breakage_analysis.Event.Ring.Lease.Segment.{IsSegment}
use paper_breakage_analysis.Event.Ring.Lease.Window.{
  lease_holds_window, lease_counts_gaps, first_time, last_time,
}
use paper_breakage_analysis.Event.Ring.Lease.Accounts
use paper_breakage_analysis.Event.Ring.Lease.Accounts.{
  Held, RingCall, pushes, leases_window, releases, closes, IsBalanced, run-IsBalanced,
}

abbrev pub numbers : Floating
numbers = record {
  Real = ℕ;
  is_finite = λ x. true;
  is_positive = λ x. ltb 0 x;
  is_negative = λ x. false;
  exceeds_one = λ x. ltb 100 x;
  at_least = λ x y. leb y x;
  same = λ x y. x == y;
  greater = λ x y. ltb y x;
  seconds_of = λ n. n;
  ceil_product = λ x y. if ltb (x * y) 1000000 then some (x * y) else none;
  quotient = λ n x. n / x;
}

abbrev two_slots : RingOptions numbers
two_slots = record {
  camera_id = "CAM01";
  capacity_frames = 2;
  required_history_seconds = 5;
  maximum_active_leases = 1;
  maximum_leased_frame_references = 4;
  shortage_callback = none;
}

abbrev frame : ℕ → ℕ → Frame
frame number time = record {
  camera_id = "CAM01";
  sequence_number = number;
  received_monotonic_time = time;
  buffer_capacity = 100;
}

abbrev pub empty_ring : MemoryRing numbers
empty_ring = record {
  options = two_slots;
  slots = none ∷ none ∷ [];
  counters = record {
    maximum_active_leases = 1;
    maximum_frame_references = 4;
    active_leases = 0;
    frame_references = 0;
  };
  head = 0;
  size = 0;
  resident_bytes = 0;
  last_sequence_number = none;
  last_monotonic_time = none;
  inserted = 0;
  overwritten = 0;
  rejected = 0;
  observed_sequence_gaps = 0;
  incomplete_windows = 0;
  lease_capacity_rejections = 0;
  callback_failures = 0;
  shortage_reason = Ring.history_span;
  shortage_active = false;
  closed = false;
}

new_ring_is_empty : new_ring two_slots ≡ some empty_ring
unfolding new_ring
new_ring_is_empty = refl

-- The third is refused, as its number does not go up, and the first is overwritten.
abbrev arrivals : List Frame
arrivals = frame 1 10 ∷ frame 3 20 ∷ frame 3 30 ∷ frame 4 40 ∷ []

push_all-contents_example :
    contents (push_all empty_ring arrivals) ≡ last_of 2 (accepted "CAM01" none none arrivals)
push_all-contents_example = push_all-contents two_slots arrivals new_ring_is_empty

arrivals_kept : last_of 2 (accepted "CAM01" none none arrivals) ≡ frame 3 20 ∷ frame 4 40 ∷ []
unfolding accepted
arrivals_kept = refl

abbrev full_ring : MemoryRing numbers
full_ring = (push (push empty_ring (frame 1 10)).0 (frame 3 20)).0

full_ring-IsValid : IsValid full_ring
full_ring-IsValid =
    push-IsValid _ _ (push-IsValid _ _ (new_ring-IsValid two_slots new_ring_is_empty))

abbrev full_lease : Lease
full_lease = record {
  frames = frame 1 10 ∷ frame 3 20 ∷ [];
  info = record {
    requested_start = 10;
    requested_end = 20;
    available_start = 10;
    available_end = 20;
    first_sequence_number = 1;
    last_sequence_number = 3;
    sequence_gaps = 1;
    complete = true;
  };
  holds_counters = true;
}

full_ring_facts :
    (full_ring.closed ≡ false)
    × ((lease_window full_ring 10 20).1 ≡ success full_lease)
    × (full_ring.last_sequence_number ≡ some 3)
    × (full_ring.last_monotonic_time ≡ some 20)
unfolding push accept place choose_slot store notify call_back update_shortage
    actual_history_seconds lease_window window_frames window_info assess grant gaps_between select
    gather
full_ring_facts = (refl, refl, refl, refl)

lease_holds_window_example :
    IsSegment 10 20 full_lease.frames (contents full_ring)
    × (full_lease.frames ≢ [])
    × (10 ≤ 20)
    × (full_lease.info.complete
        ≡ (leb (first_time (contents full_ring)) 10 && leb 20 (last_time (contents full_ring))))
lease_holds_window_example =
    lease_holds_window full_ring 10 20 full_ring-IsValid full_ring_facts.0 full_ring_facts.1

lease_counts_gaps_example : 1 + 1 + 2 ≡ 3 + 1
lease_counts_gaps_example =
    lease_counts_gaps full_ring 10 20 3 20 full_ring-IsValid full_ring_facts.0 full_ring_facts.2
      full_ring_facts.3 (omega arith) full_ring_facts.1

abbrev ring_calls : List RingCall
ring_calls =
    pushes (frame 1 10) ∷ leases_window 5 15 ∷ leases_window 5 15 ∷ releases 0 ∷ closes ∷ []

run-IsBalanced_example :
    IsBalanced two_slots (Accounts.run (record { ring = empty_ring; leases = [] }) ring_calls)
run-IsBalanced_example = run-IsBalanced two_slots ring_calls (omega arith) new_ring_is_empty
