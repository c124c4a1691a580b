-- ===== src/Event/Ring/Contents.antt =====
-- The ring seen as the list of its frames, oldest first, and what holds of it between two calls.
use paper_breakage_analysis.Base.{
  ℕ, ◌+◌, ◌%◌, ◌≤◌, ◌<◌, ◌≡◌, List, [], ◌∷◌, ◌++◌, Option, none, some, arith, length,
  length-replicate, u64_mod,
}
use paper_breakage_analysis.Base.Slots.{gather}
use paper_breakage_analysis.Base.Floating.{Floating}
use paper_breakage_analysis.Event.Ring.{Frame, MemoryRing, RingOptions, new_ring}

-- Nothing, or an earlier frame, stands before.
abbrev pub Precedes : Frame → List Frame → Type 0
Precedes f [] = Unit {0}
Precedes f (g ∷ gs) =
    (f.sequence_number < g.sequence_number)
    × (f.received_monotonic_time < g.received_monotonic_time)

-- The frames ascend in number and time, up to a last number and a last time.
abbrev pub Ascends : List Frame → ℕ → ℕ → Type 0
Ascends [] n t = Unit {0}
Ascends (f ∷ fs) n t =
    (f.sequence_number ≤ n) × (f.received_monotonic_time ≤ t) × Precedes f fs × Ascends fs n t

abbrev pub AscendsTo : List Frame → Option ℕ → Option ℕ → Type 0
AscendsTo fs (some n) (some t) = Ascends fs n t
AscendsTo fs _ _ = fs ≡ []

abbrev pub total_capacity : List Frame → ℕ
total_capacity [] = 0
total_capacity (f ∷ fs) = f.buffer_capacity + total_capacity fs

-- A new frame after the last one ends the list.
pub Ascends-snoc :
    (fs : List Frame) (f : Frame) {n t : ℕ}
    → Ascends fs n t
    → n < f.sequence_number
    → t < f.received_monotonic_time
    → Ascends (fs ++ (f ∷ [])) f.sequence_number f.received_monotonic_time
Ascends-snoc [] f a p q = omega arith
Ascends-snoc (g ∷ []) f a p q = omega arith
Ascends-snoc (g ∷ h ∷ fs) f a p q = (omega arith, omega arith, a.2, Ascends-snoc (h ∷ fs) f a.3 p q)

pub total_capacity-append :
    (fs gs : List Frame) → total_capacity (fs ++ gs) ≡ total_capacity fs + total_capacity gs
total_capacity-append [] gs = omega arith
total_capacity-append (f ∷ fs) gs = omega (arith, total_capacity-append fs gs)

module _ {F : Floating} where
  unfoldable pub contents : MemoryRing F → List Frame
  contents r = gather r.slots r.head r.size

  pub record IsValid (r : MemoryRing F) : Type 0 where
    pub some_slots : 0 < length r.slots
    pub head_in : r.head < length r.slots
    pub size_in : r.size ≤ length r.slots
    -- every slot of the ring holds a frame
    pub full : length (contents r) ≡ r.size
    pub resident : r.resident_bytes ≡ total_capacity (contents r) % u64_mod
    pub ascends : AscendsTo (contents r) r.last_sequence_number r.last_monotonic_time

  pub new_ring-IsValid : (o : RingOptions F) {r : MemoryRing F} → new_ring o ≡ some r → IsValid r
  unfolding new_ring contents gather
  new_ring-IsValid o e = ground (arith, length-replicate {A = Option Frame} o.capacity_frames none)
