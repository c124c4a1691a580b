-- ===== src/Event/Ring/Lease/Segment.antt =====
-- The frames of a window of src/event/src/memory_ring.cpp among all frames of the ring.
use paper_breakage_analysis.Base.{
  ℕ, ◌≤◌, ◌<◌, ◌≡◌, refl, ap, List, [], ◌∷◌, ◌++◌, true, false, arith, leb, dec_lt,
}
use paper_breakage_analysis.Event.Ring.{Frame}
use paper_breakage_analysis.Event.Ring.Contents.{Ascends}
use paper_breakage_analysis.Event.Ring.Lease.{select}

abbrev pub AllBefore : ℕ → List Frame → Type 0
AllBefore start [] = Unit {0}
AllBefore start (f ∷ fs) = (f.received_monotonic_time < start) × AllBefore start fs

abbrev pub AllWithin : ℕ → ℕ → List Frame → Type 0
AllWithin start end [] = Unit {0}
AllWithin start end (f ∷ fs) =
    (start ≤ f.received_monotonic_time) × (f.received_monotonic_time ≤ end) × AllWithin start end fs

abbrev pub AllAfter : ℕ → List Frame → Type 0
AllAfter end [] = Unit {0}
AllAfter end (f ∷ fs) = (end < f.received_monotonic_time) × AllAfter end fs

-- A list is some frames before a window, those of the window, and some after it.
abbrev pub IsSegment : ℕ → ℕ → List Frame → List Frame → Type 0
IsSegment start end window all =
    (before : List Frame) × (after : List Frame) × (all ≡ before ++ (window ++ after))
    × AllBefore start before
    × AllWithin start end window
    × AllAfter end after

-- Behind a frame that is later than a time, all are.
all_after :
    (fs : List Frame) (f : Frame) (n t end : ℕ)
    → end < f.received_monotonic_time
    → Ascends (f ∷ fs) n t
    → AllAfter end (f ∷ fs)
all_after [] f n t end h a = (h, tt)
all_after (g ∷ gs) f n t end h a = (h, all_after gs g n t end (omega arith) a.3)

select_none : (start end : ℕ) (fs : List Frame) → AllAfter end fs → select start end fs ≡ []
unfolding select
select_none start end [] a = refl
select_none start end (f ∷ fs) a = ground (arith, select_none start end fs a.1)

-- What of a list that begins inside a window, or after it, the window takes.
abbrev IsPrefix : ℕ → ℕ → List Frame → List Frame → Type 0
IsPrefix start end window all =
    (after : List Frame) × (all ≡ window ++ after) × AllWithin start end window × AllAfter end after

begin_prefix :
    (start end : ℕ) (f : Frame) (fs : List Frame) (n t : ℕ)
    → start ≤ f.received_monotonic_time
    → Ascends (f ∷ fs) n t
    → IsPrefix start end (select start end fs) fs
    → IsPrefix start end (select start end (f ∷ fs)) (f ∷ fs)
unfolding select
begin_prefix start end f fs n t h a (after, e, within, later) =
    elim (dec_lt end f.received_monotonic_time) [
      | yes p ↦
          let behind = all_after fs f n t end p a in
          let outside : leb f.received_monotonic_time end ≡ false = ground arith in
          let inside : leb start f.received_monotonic_time ≡ true = ground arith in
          rw (outside, inside, select_none start end fs behind.1) (f ∷ fs, refl, tt, behind)
      | no p ↦
          let before_end : leb f.received_monotonic_time end ≡ true = ground arith in
          let inside : leb start f.received_monotonic_time ≡ true = ground arith in
          rw (before_end, inside) (after, ap (◌∷◌ f) e, (h, omega arith, within), later)
    ]

-- Frames of which the first is not before the window.
select_prefix :
    (start end : ℕ) (f : Frame) (fs : List Frame) (n t : ℕ)
    → start ≤ f.received_monotonic_time
    → Ascends (f ∷ fs) n t
    → IsPrefix start end (select start end (f ∷ fs)) (f ∷ fs)
select_prefix start end f [] n t h a =
    begin_prefix start end f [] n t h a (unfold select in ([], refl, tt, tt))
select_prefix start end f (g ∷ gs) n t h a =
    begin_prefix start end f (g ∷ gs) n t h a (select_prefix start end g gs n t (omega arith) a.3)

pub select-IsSegment :
    (start end : ℕ) (fs : List Frame) (n t : ℕ)
    → Ascends fs n t
    → IsSegment start end (select start end fs) fs
unfolding select
select-IsSegment start end [] n t a = ([], [], refl, tt, tt, tt)
select-IsSegment start end (f ∷ fs) n t a = elim (dec_lt f.received_monotonic_time start) [
  | yes p ↦
      let outside : leb start f.received_monotonic_time ≡ false = ground arith in
      let (before, after, e, x, y, z) = select-IsSegment start end fs n t a.3 in
      rw outside (f ∷ before, after, ap (◌∷◌ f) e, (p, x), y, z)
  | no p ↦
      let (after, e, y, z) = select_prefix start end f fs n t (omega arith) a in
      ([], after, e, tt, y, z)
]
