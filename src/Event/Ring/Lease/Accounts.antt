-- ===== src/Event/Ring/Lease/Accounts.antt =====
-- The counters of the leases of src/event/src/memory_ring.cpp.
use paper_breakage_analysis.Base.{
  ℕ, zero, suc, ◌+◌, ◌≤◌, ◌<◌, ◌≡◌, refl, List, [], ◌∷◌, Bool, true, Option, none, some, Result,
  success, failure, arith, ◌∙◌, Bool-cases, Option-cases, inl, inr, length, u64_mod, sub_u64_of_le,
}
use paper_breakage_analysis.Base.Floating.{Floating}
use paper_breakage_analysis.Event.Ring.{
  Frame, MemoryRing, RingOptions, LeaseCounters, ShortageNotice, ShortageReason, update_shortage,
  notify, place, accept, push, new_ring,
}
use paper_breakage_analysis.Event.Ring.Lease.{
  Lease, WindowInfo, has_capacity, charge, assess, grant, lease_window, close, release,
  window_frames, window_info,
}

-- A ring and the leases that its clients hold.
pub record Held (F : Floating) : Type 0 where
  pub ring : MemoryRing F
  pub leases : List Lease

abbrev pub referenced : List Lease → ℕ
referenced [] = 0
referenced (l ∷ ls) = length l.frames + referenced ls

abbrev pub AllHold : List Lease → Type 0
AllHold [] = Unit {0}
AllHold (l ∷ ls) = (l.holds_counters ≡ true) × AllHold ls

pub data RingCall : Type 0 where
  pushes : Frame → RingCall
  leases_window : ℕ → ℕ → RingCall
  -- the holder of the lease at an index lets it go
  releases : ℕ → RingCall
  closes : RingCall

abbrev pub take_lease : List Lease → ℕ → Option (Lease × List Lease)
take_lease [] i = none
take_lease (l ∷ ls) zero = some (l, ls)
take_lease (l ∷ ls) (suc i) = elim (take_lease ls i) [
  | none ↦ none
  | some (k, ks) ↦ some (k, l ∷ ks)
]

take_lease_lem :
    (ls : List Lease) (i : ℕ) (l : Lease) (rest : List Lease)
    → take_lease ls i ≡ some (l, rest)
    → AllHold ls
    → (length ls ≡ suc (length rest))
      × (referenced ls ≡ length l.frames + referenced rest)
      × (l.holds_counters ≡ true)
      × AllHold rest
take_lease_lem [] i l rest e a = cc
take_lease_lem (k ∷ ks) zero l rest e a = ground arith
take_lease_lem (k ∷ ks) (suc i) l rest e a = elim (Option-cases (take_lease ks i)) [
  | inl q ↦ ground (arith, q)
  | inr ((m, ms), q) ↦ ground (arith, q, take_lease_lem ks i m ms q a.1)
]

capacity_lem :
    (c : LeaseCounters) (fs : List Frame)
    → has_capacity c fs ≡ true
    → (c.active_leases < c.maximum_active_leases)
      × (c.frame_references ≤ c.maximum_frame_references
          → c.maximum_frame_references < u64_mod
          → c.frame_references + length fs ≤ c.maximum_frame_references)
capacity_lem c fs e = (
  ground arith,
  λ h k. ground (arith, sub_u64_of_le c.maximum_frame_references c.frame_references h k),
)

module _ {F : Floating} where
  abbrev pub keep_lease : MemoryRing F × Result Lease → List Lease → Held F
  keep_lease (r, success l) ls = record { ring = r; leases = l ∷ ls }
  keep_lease (r, failure e) ls = record { ring = r; leases = ls }

  unfoldable pub step : Held F → RingCall → Held F
  step h (pushes f) = record h { ring = (push h.ring f).0 }
  step h (leases_window start end) = keep_lease (lease_window h.ring start end) h.leases
  step h (releases i) = elim (take_lease h.leases i) [
    | none ↦ h
    | some (l, ls) ↦ record {
      ring = record (h.ring) { counters = (release (h.ring).counters l).0 };
      leases = ls;
    }
  ]
  step h closes = record h { ring = close h.ring }

  unfoldable pub run : Held F → List RingCall → Held F
  run h [] = h
  run h (c ∷ cs) = run (step h c) cs

  -- The counters tell the leases that are held, and stay within the limits that the options set.
  pub record IsBalanced (o : RingOptions F) (h : Held F) : Type 0 where
    pub counted : (h.ring).counters.active_leases ≡ length h.leases
    pub referenced_frames : (h.ring).counters.frame_references ≡ referenced h.leases
    pub lease_limit : (h.ring).counters.active_leases ≤ o.maximum_active_leases
    pub frame_limit : (h.ring).counters.frame_references ≤ o.maximum_leased_frame_references
    pub most_leases : (h.ring).counters.maximum_active_leases ≡ o.maximum_active_leases
    pub most_frames : (h.ring).counters.maximum_frame_references ≡ o.maximum_leased_frame_references
    pub sizes : o.maximum_leased_frame_references < u64_mod
    pub held : AllHold h.leases

  counters-report :
      (r : MemoryRing F) (active : Bool) (reason : ShortageReason) (x y : F.Real) (m n : ℕ)
      → (notify (update_shortage r active reason x y m n)).counters ≡ r.counters
  unfolding notify update_shortage
  counters-report r active reason x y m n = ground arith

  counters-place : (r : MemoryRing F) (f : Frame) → (place r f).0.counters ≡ r.counters
  unfolding place
  counters-place r f = ground arith

  counters-accept : (r : MemoryRing F) (f : Frame) → (accept r f).0.counters ≡ r.counters
  unfolding accept
  counters-accept r f = counters-report (place r f).0 _ _ _ _ _ _ ∙ counters-place r f

  counters-push : (r : MemoryRing F) (f : Frame) → (push r f).0.counters ≡ r.counters
  unfolding push
  counters-push r f = ground (arith, counters-accept r f)

  counters-assess :
      (r : MemoryRing F) (start end : ℕ) (fs : List Frame)
      → (assess r start end fs).0.counters ≡ r.counters
  unfolding assess update_shortage
  counters-assess r start end fs = ground arith

  counters-close : (r : MemoryRing F) → (close r).counters ≡ r.counters
  unfolding close
  counters-close r = ground arith

  counters-notify :
      (r : MemoryRing F) (n : Option (ShortageNotice F)) → (notify (r, n)).counters ≡ r.counters
  unfolding notify
  counters-notify r none = refl
  counters-notify r (some n) = ground arith

  -- Only the counters matter.
  moved-IsBalanced :
      {o : RingOptions F} (h : Held F) (r : MemoryRing F)
      → r.counters ≡ (h.ring).counters
      → IsBalanced o h
      → IsBalanced o (record h { ring = r })
  moved-IsBalanced h r e b = ground (arith, e)

  charged-IsBalanced :
      {o : RingOptions F} (h : Held F) (r : MemoryRing F) (notice : Option (ShortageNotice F))
      (info : WindowInfo) (fs : List Frame)
      → r.counters ≡ (h.ring).counters
      → IsBalanced o h
      → has_capacity r.counters fs ≡ true
      → IsBalanced o (record {
        ring = notify (record r { counters = charge r.counters fs }, notice);
        leases = record { frames = fs; info = info; holds_counters = true } ∷ h.leases;
      })
  charged-IsBalanced h r notice info fs e b c =
      let q = counters-notify (record r { counters = charge r.counters fs }) notice in
      let k = capacity_lem r.counters fs c in ground (arith, q, e, k)

  grant-IsBalanced :
      {o : RingOptions F} (h : Held F) (r : MemoryRing F) (notice : Option (ShortageNotice F))
      (start end : ℕ) (info : WindowInfo) (fs : List Frame)
      → r.counters ≡ (h.ring).counters
      → IsBalanced o h
      → IsBalanced o (keep_lease (grant (r, notice) start end info fs) h.leases)
  unfolding grant
  grant-IsBalanced h r notice start end info [] e b =
      moved-IsBalanced h (notify (r, notice)) (counters-notify r notice ∙ e) b
  grant-IsBalanced h r notice start end info (f ∷ fs) e b =
      elim (Bool-cases (has_capacity r.counters (f ∷ fs))) [
        | inl c ↦ rw c (charged-IsBalanced h r notice info (f ∷ fs) e b c)
        | inr c ↦ rw c (moved-IsBalanced h _ (counters-report _ _ _ _ _ _ _ ∙ e) b)
      ]

  lease-IsBalanced :
      {o : RingOptions F} (h : Held F) (start end : ℕ)
      → IsBalanced o h
      → IsBalanced o (keep_lease (lease_window h.ring start end) h.leases)
  unfolding lease_window
  lease-IsBalanced h start end b =
      let fs = window_frames h.ring start end in
      let q = assess h.ring start end fs in
      ground (
        arith,
        grant-IsBalanced h q.0 q.1 start end (window_info h.ring start end fs) fs
            (counters-assess h.ring start end fs) b,
      )

  release-IsBalanced :
      {o : RingOptions F} (h : Held F) (i : ℕ) → IsBalanced o h → IsBalanced o (step h (releases i))
  unfolding step release
  release-IsBalanced h i b = elim (Option-cases (take_lease h.leases i)) [
    | inl e ↦ ground arith
    | inr ((l, ls), e) ↦ ground (arith, take_lease_lem h.leases i l ls e b.held)
  ]

  -- Every call keeps the accounts.
  step-IsBalanced :
      {o : RingOptions F} (h : Held F) (c : RingCall) → IsBalanced o h → IsBalanced o (step h c)
  unfolding step
  step-IsBalanced h (pushes f) b = moved-IsBalanced h (push h.ring f).0 (counters-push h.ring f) b
  step-IsBalanced h (leases_window start end) b = lease-IsBalanced h start end b
  step-IsBalanced h (releases i) b = release-IsBalanced h i b
  step-IsBalanced h closes b = moved-IsBalanced h (close h.ring) (counters-close h.ring) b

  run_keeps :
      {o : RingOptions F} (h : Held F) (cs : List RingCall)
      → IsBalanced o h
      → IsBalanced o (run h cs)
  unfolding run
  run_keeps h [] b = b
  run_keeps h (c ∷ cs) b = run_keeps (step h c) cs (step-IsBalanced h c b)

  new_ring-IsBalanced :
      (o : RingOptions F) {r : MemoryRing F}
      → o.maximum_leased_frame_references < u64_mod
      → new_ring o ≡ some r
      → IsBalanced o (record { ring = r; leases = [] })
  unfolding new_ring
  new_ring-IsBalanced o {r} s e = ground arith

  -- From a new ring on, whatever is pushed, leased, released or closed, the counters are the number
  -- of leases that are held and of the frames in them, and neither is ever above the limit that the
  -- options of the ring give for it, provided that the limit on the frames is a 64-bit number.
  pub run-IsBalanced :
      (o : RingOptions F) {r : MemoryRing F} (cs : List RingCall)
      → o.maximum_leased_frame_references < u64_mod
      → new_ring o ≡ some r
      → IsBalanced o (run (record { ring = r; leases = [] }) cs)
  run-IsBalanced o cs s e = run_keeps _ cs (new_ring-IsBalanced o s e)
