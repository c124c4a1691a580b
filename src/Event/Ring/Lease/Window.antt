-- ===== src/Event/Ring/Lease/Window.antt =====
-- The frames and the gaps of a lease of src/event/src/memory_ring.cpp.
use native.Mathlib.Nat.{mod-eq_of_lt}
use paper_breakage_analysis.Base.{
  ℕ, suc, ◌+◌, ◌-◌, ◌≤◌, ◌<◌, ◌≡◌, ◌≢◌, refl, sym, subst, subst₂, ap, ◌∙◌, List, [], ◌∷◌, ◌++◌,
  ◌&&◌, ◌%◌, get_or, true, false, Option, none, some, success, arith, length, u64_mod, leb,
}
use paper_breakage_analysis.Base.Slots.{gather, gather-pop, gather-last}
use paper_breakage_analysis.Base.Floating.{Floating}
use paper_breakage_analysis.Event.Ring.{
  Frame, MemoryRing, slot_time, newest_index, read_time, ShortageNotice, count_gap,
}
use paper_breakage_analysis.Event.Ring.Contents.{contents, IsValid, Ascends, AscendsTo, Precedes}
use paper_breakage_analysis.Event.Ring.Lease.Segment.{IsSegment, select-IsSegment}
use paper_breakage_analysis.Event.Ring.Lease.{
  Lease, WindowInfo, select, gaps_between, first_sequence, last_sequence, window_frames,
  window_info, assess, has_capacity, grant, lease_window,
}

Precedes-select :
    (start end : ℕ) (f : Frame) (fs : List Frame) (n t : ℕ)
    → Precedes f fs
    → Ascends fs n t
    → Precedes f (select start end fs)
unfolding select
Precedes-select start end f [] n t p a = tt
Precedes-select start end f (g ∷ fs) n t p a =
    ground (arith, Precedes-select start end f fs n t (later fs a) a.3)
  where
    later : (fs : List Frame) → Ascends (g ∷ fs) n t → Precedes f fs
    later [] a = tt
    later (h ∷ hs) a = (omega arith, omega arith)

-- A window of ascending frames ascends.
pub Ascends-select :
    (start end : ℕ) (fs : List Frame) (n t : ℕ) → Ascends fs n t → Ascends (select start end fs) n t
unfolding select
Ascends-select start end [] n t a = tt
Ascends-select start end (f ∷ fs) n t a =
    ground (arith, Ascends-select start end fs n t a.3, Precedes-select start end f fs n t a.2 a.3)

first-le-last :
    (f : Frame) (fs : List Frame) (n t : ℕ)
    → Ascends (f ∷ fs) n t
    → f.sequence_number ≤ last_sequence (f ∷ fs)
first-le-last f [] n t a = omega arith
first-le-last f (g ∷ fs) n t a = omega (arith, first-le-last g fs n t a.3)

last-le :
    (f : Frame) (fs : List Frame) (n t : ℕ) → Ascends (f ∷ fs) n t → last_sequence (f ∷ fs) ≤ n
last-le f [] n t a = omega arith
last-le f (g ∷ fs) n t a = last-le g fs n t a.3

count_gap_lem :
    (g a b : ℕ) → a < b → b < u64_mod → g + (b - a) < u64_mod → count_gap g a b + 1 ≡ g + (b - a)
count_gap_lem g a b p q h = ground arith

gaps_between_from :
    (g : ℕ) (f : Frame) (fs : List Frame) (n t : ℕ)
    → Ascends (f ∷ fs) n t
    → n < u64_mod
    → g + (last_sequence (f ∷ fs) - f.sequence_number) < u64_mod
    → gaps_between g (f ∷ fs) + f.sequence_number + length (f ∷ fs) ≡ g + last_sequence (f ∷ fs) + 1
unfolding gaps_between
gaps_between_from g f [] n t a b h = omega arith
gaps_between_from g f (k ∷ fs) n t a b h = omega (
  arith,
  first-le-last k fs n t a.3,
  last-le k fs n t a.3,
  step,
  gaps_between_from (count_gap g f.sequence_number k.sequence_number) k fs n t a.3 b
      (omega (arith, step, first-le-last k fs n t a.3)),
)
  where
    step :
        count_gap g f.sequence_number k.sequence_number + 1
        ≡ g + (k.sequence_number - f.sequence_number)
    step =
        count_gap_lem g f.sequence_number k.sequence_number (omega arith)
          (omega (arith, first-le-last k fs n t a.3, last-le k fs n t a.3))
          (omega (arith, first-le-last k fs n t a.3))

gaps_of_window :
    (fs : List Frame) (n t : ℕ)
    → fs ≢ []
    → Ascends fs n t
    → n < u64_mod
    → gaps_between 0 fs + first_sequence fs + length fs ≡ last_sequence fs + 1
gaps_of_window [] n t h a b = absurd (h refl)
gaps_of_window (f ∷ fs) n t h a b =
    omega (arith, gaps_between_from 0 f fs n t a b (omega (arith, last-le f fs n t a)))

abbrev pub first_time : List Frame → ℕ
first_time [] = 0
first_time (f ∷ fs) = f.received_monotonic_time

abbrev pub last_time : List Frame → ℕ
last_time [] = 0
last_time (f ∷ []) = f.received_monotonic_time
last_time (f ∷ g ∷ fs) = last_time (g ∷ fs)

last_time-append :
    (fs : List Frame) (f : Frame) → last_time (fs ++ (f ∷ [])) ≡ f.received_monotonic_time
last_time-append [] f = refl
last_time-append (g ∷ []) f = refl
last_time-append (g ∷ h ∷ fs) f = last_time-append (h ∷ fs) f

module _ {F : Floating} where
  -- The code reads the oldest and the newest time off the slots.
  oldest_slot :
      (r : MemoryRing F) → IsValid r → 0 < r.size → slot_time r r.head ≡ first_time (contents r)
  unfolding contents
  oldest_slot r v p =
      let (a, e, q, _) = gather-pop r.slots r.head r.size p v.full in
      ap (λ i. slot_time r i) (sym (mod-eq_of_lt v.head_in))
      ∙ ap read_time e
      ∙ sym (ap first_time q)

  newest_slot :
      (r : MemoryRing F)
      → IsValid r
      → 0 < r.size
      → slot_time r (newest_index r) ≡ last_time (contents r)
  unfolding contents
  newest_slot r v p =
      let same : r.size ≡ suc (r.size - 1) = omega arith in
      let (a, e, q) =
        gather-last r.slots r.head (r.size - 1)
          (ap (λ n. length (gather r.slots r.head n)) (sym same) ∙ v.full ∙ same) in
      ap (λ i. read_time (get_or r.slots (i % length r.slots) none)) (omega arith)
      ∙ ap read_time e
      ∙ sym (
          ap (λ n. last_time (gather r.slots r.head n)) same
          ∙ ap last_time q
          ∙ last_time-append (gather r.slots r.head (r.size - 1)) a)

  grant_success :
      (r : MemoryRing F) (notice : Option (ShortageNotice F)) (start end : ℕ) (info : WindowInfo)
      (fs : List Frame) {l : Lease}
      → (grant (r, notice) start end info fs).1 ≡ success l
      → (l.frames ≡ fs)
        × (fs ≢ [])
        × (l.info ≡ info)
        × (l.holds_counters ≡ true)
        × (has_capacity r.counters fs ≡ true)
  unfolding grant
  grant_success r notice start end info [] e = cc
  grant_success r notice start end info (f ∷ fs) e = ground arith

  -- The window of an open ring with frames.
  window_frames_lem :
      (r : MemoryRing F) (start end : ℕ)
      → r.closed ≡ false
      → window_frames r start end ≢ []
      → (window_frames r start end ≡ select start end (contents r)) × (0 < r.size)
  unfolding window_frames contents
  window_frames_lem r start end o h = ground arith

  lease_success :
      (r : MemoryRing F) (start end : ℕ) {l : Lease}
      → (lease_window r start end).1 ≡ success l
      → (start ≤ end)
        × (l.frames ≡ window_frames r start end)
        × (l.frames ≢ [])
        × (l.info ≡ window_info r start end (window_frames r start end))
  unfolding lease_window
  lease_success r start end {l} e =
      let fs = window_frames r start end in
      let q = assess r start end fs in
      ground (arith, grant_success q.0 q.1 start end (window_info r start end fs) fs {l = l})

  -- The frames of the ring in the window.
  contents-IsSegment :
      (r : MemoryRing F) (start end : ℕ)
      → IsValid r
      → IsSegment start end (select start end (contents r)) (contents r)
  contents-IsSegment r start end v =
      ascending (contents r) r.last_sequence_number r.last_monotonic_time v.ascends
    where
      empty : (fs : List Frame) → fs ≡ [] → IsSegment start end (select start end fs) fs
      empty fs e =
          subst (λ x. IsSegment start end (select start end x) x) (sym e)
            (select-IsSegment start end [] 0 0 tt)

      ascending :
          (fs : List Frame) (n t : Option ℕ)
          → AscendsTo fs n t
          → IsSegment start end (select start end fs) fs
      ascending fs (some n) (some t) a = select-IsSegment start end fs n t a
      ascending fs (some n) none a = empty fs a
      ascending fs none t a = empty fs a

  -- A lease that an open ring grants takes the frames of the ring apart into those before the start of
  -- the window, the frames of the lease, of which there is at least one and which all lie in the window
  -- with both its ends, and those after its end, in the order of the ring. It is complete exactly if the
  -- oldest frame of the ring is not after the start of the window and the newest not before its end.
  pub lease_holds_window :
      (r : MemoryRing F) (start end : ℕ) {l : Lease}
      → IsValid r
      → r.closed ≡ false
      → (lease_window r start end).1 ≡ success l
      → IsSegment start end l.frames (contents r)
        × (l.frames ≢ [])
        × (start ≤ end)
        × (l.info.complete
            ≡ (leb (first_time (contents r)) start && leb end (last_time (contents r))))
  unfolding window_info
  lease_holds_window r start end {l} v o e =
      let k = lease_success r start end e in
      let w = window_frames_lem r start end o (λ h. k.2 (k.1 ∙ h)) in
      (
        subst (λ fs. IsSegment start end fs (contents r)) (sym (k.1 ∙ w.0))
            (contents-IsSegment r start end v),
        k.2,
        k.0,
        ap (λ i. i.complete) k.3
            ∙ rw (oldest_slot r v w.1, newest_slot r v w.1) (ground (arith, k.1, k.2)),
      )

  -- The numbers of a granted lease account for every frame of the window: from the first number to
  -- the last, the frames that are held and the gaps that are counted make up all of them, provided
  -- that the ring's numbers are 64-bit.
  pub lease_counts_gaps :
      (r : MemoryRing F) (start end n t : ℕ) {l : Lease}
      → IsValid r
      → r.closed ≡ false
      → r.last_sequence_number ≡ some n
      → r.last_monotonic_time ≡ some t
      → n < u64_mod
      → (lease_window r start end).1 ≡ success l
      → l.info.sequence_gaps + l.info.first_sequence_number + length l.frames
        ≡ l.info.last_sequence_number + 1
  unfolding window_info
  lease_counts_gaps r start end n t {l} v o en et b e =
      let k = lease_success r start end e in
      let fs = window_frames r start end in
      let w = window_frames_lem r start end o (λ q. k.2 (k.1 ∙ q)) in
      let a : Ascends fs n t =
        subst (λ x. Ascends x n t) (sym w.0)
          (Ascends-select start end (contents r) n t
            (subst₂ (AscendsTo (contents r)) en et v.ascends)) in
      omega (
        arith,
        ap (λ i. i.sequence_gaps) k.3,
        ap (λ i. i.first_sequence_number) k.3,
        ap (λ i. i.last_sequence_number) k.3,
        ap length k.1,
        gaps_of_window fs n t (λ q. k.2 (k.1 ∙ q)) a b,
      )
