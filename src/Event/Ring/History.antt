-- ===== src/Event/Ring/History.antt =====
-- Sequences of pushes to the ring of src/event/src/memory_ring.cpp.
use mathlib.Core.List.{append_assoc, append-nil}
use paper_breakage_analysis.Base.{
  ℕ, zero, suc, ◌-◌, ◌≤◌, ◌<◌, ◌≡◌, refl, sym, ap, ◌∙◌, List, [], ◌∷◌, ◌++◌, Bool, true, false, not,
  ◌&&◌, ◌||◌, Option, none, some, String, arith, length, length-append, drop, str_eq, if◌then◌else◌,
  ◌==◌, dec_lt, length-replicate, length-drop, lt→ltb, Bool-cases, inl, inr, ltb, inc_u64,
}
use paper_breakage_analysis.Base.Slots.{gather}
use paper_breakage_analysis.Base.Floating.{Floating}
use paper_breakage_analysis.Event.Ring.{
  Frame, MemoryRing, RingOptions, ShortageReason, refuses, no_later, history_span,
  actual_history_seconds, place, accept, push, update_shortage, notify, new_ring,
}
use paper_breakage_analysis.Event.Ring.Contents.{contents, IsValid, new_ring-IsValid}
use paper_breakage_analysis.Event.Ring.Push.{keep_last, place-IsValid, contents-place, place_fields}

module _ {F : Floating} where
  -- Reporting a shortage changes no frame.
  pub report-IsValid :
      (r : MemoryRing F) (active : Bool) (reason : ShortageReason) (x y : F.Real) (m n : ℕ)
      → IsValid r
      → IsValid (notify (update_shortage r active reason x y m n))
  unfolding notify update_shortage contents
  report-IsValid r active reason x y m n v = ground arith

  accept-IsValid :
      (r : MemoryRing F) (f : Frame) → IsValid r → refuses r f ≡ false → IsValid (accept r f).0
  unfolding accept
  accept-IsValid r f v e = report-IsValid (place r f).0 _ _ _ _ _ _ (place-IsValid r f v e)

  rejected-IsValid : (r : MemoryRing F) (n : ℕ) → IsValid r → IsValid (record r { rejected = n })
  unfolding contents
  rejected-IsValid r n v = ground arith

  -- Pushing any frame keeps the ring valid.
  pub push-IsValid : (r : MemoryRing F) (f : Frame) → IsValid r → IsValid (push r f).0
  unfolding push
  push-IsValid r f v =
      ground (arith, accept-IsValid r f v, rejected-IsValid r (inc_u64 r.rejected) v)

  pub report_keeps :
      (r : MemoryRing F) (active : Bool) (reason : ShortageReason) (x y : F.Real) (m n : ℕ)
      → let r' = notify (update_shortage r active reason x y m n) in
        (contents r' ≡ contents r)
        × (r'.slots ≡ r.slots)
        × (r'.options.camera_id ≡ r.options.camera_id)
        × (r'.closed ≡ r.closed)
        × (r'.last_sequence_number ≡ r.last_sequence_number)
        × (r'.last_monotonic_time ≡ r.last_monotonic_time)
  unfolding notify update_shortage contents
  report_keeps r active reason x y m n = ground arith

  place_keeps :
      (r : MemoryRing F) (f : Frame)
      → ((place r f).0.options.camera_id ≡ r.options.camera_id) × ((place r f).0.closed ≡ r.closed)
  unfolding place
  place_keeps r f = ground arith

  accept_lem :
      (r : MemoryRing F) (f : Frame)
      → IsValid r
      → let r' = (accept r f).0 in
        (contents r' ≡ keep_last (length r.slots) (contents r) f)
        × (length r'.slots ≡ length r.slots)
        × (r'.options.camera_id ≡ r.options.camera_id)
        × (r'.closed ≡ r.closed)
        × (r'.last_sequence_number ≡ some f.sequence_number)
        × (r'.last_monotonic_time ≡ some f.received_monotonic_time)
  unfolding accept
  accept_lem r f v =
      let r' = (place r f).0 in
      let actual = actual_history_seconds r' in
      let required = r'.options.required_history_seconds in
      let k =
        report_keeps r' (r'.size == length r'.slots && F.greater required actual) history_span
          required actual (length r'.slots) r'.size in
      let p = place_fields r f in
      let q = place_keeps r f in
      (k.0 ∙ contents-place r f v, ap length k.1 ∙ p.0, k.2 ∙ q.0, k.3 ∙ q.1, k.4 ∙ p.1, k.5 ∙ p.2)

-- The frames that a ring of the camera `id` accepts after the number `n` and the time `t`: those of
-- the camera whose number and time both go up.
unfoldable pub accepted : String → Option ℕ → Option ℕ → List Frame → List Frame
accepted id n t [] = []
accepted id n t (f ∷ fs) =
    let skipped = accepted id n t fs in
    let rest = accepted id (some f.sequence_number) (some f.received_monotonic_time) fs in
    if not (str_eq f.camera_id id)
      || no_later t f.received_monotonic_time
      || no_later n f.sequence_number
    then skipped
    else f ∷ rest

-- The last frames of a list.
abbrev pub last_of : ℕ → List Frame → List Frame
last_of capacity fs = drop (length fs - capacity) fs

drop-nil : (k : ℕ) → drop {A = Frame} k [] ≡ []
drop-nil zero = refl
drop-nil (suc k) = refl

drop-append : (k : ℕ) (fs gs : List Frame) → k ≤ length fs → drop k (fs ++ gs) ≡ drop k fs ++ gs
drop-append zero fs gs h = refl
drop-append (suc k) [] gs h = absurd (omega arith)
drop-append (suc k) (f ∷ fs) gs h = drop-append k fs gs (omega arith)

drop-one : (k : ℕ) (fs : List Frame) → drop 1 (drop k fs) ≡ drop (suc k) fs
drop-one zero fs = refl
drop-one (suc k) [] = refl
drop-one (suc k) (f ∷ fs) = drop-one k fs

keep_last_below :
    (capacity : ℕ) (fs : List Frame) (f : Frame)
    → length fs < capacity
    → keep_last capacity (last_of capacity fs) f ≡ last_of capacity (fs ++ (f ∷ []))
unfolding keep_last
keep_last_below capacity fs f p =
    let a : length fs - capacity ≡ 0 = omega arith in
    let b : length (fs ++ (f ∷ [])) - capacity ≡ 0 = omega (arith, length-append fs (f ∷ [])) in
    rw (a, b, lt→ltb _ _ p)

keep_last_full :
    (capacity : ℕ) (fs : List Frame) (f : Frame)
    → 0 < capacity
    → capacity ≤ length fs
    → keep_last capacity (last_of capacity fs) f ≡ last_of capacity (fs ++ (f ∷ []))
unfolding keep_last
keep_last_full capacity fs f p q =
    let k = length fs - capacity in
    let a : length (fs ++ (f ∷ [])) - capacity ≡ suc k = omega (arith, length-append fs (f ∷ [])) in
    let b : ltb (length (drop k fs)) capacity ≡ false = ground (arith, length-drop k fs) in
    rw (a, b)
      (ap (λ l. l ++ (f ∷ [])) (drop-one k fs)
        ∙ sym (drop-append (suc k) fs (f ∷ []) (omega arith)))

keep_last-last_of :
    (capacity : ℕ) (fs : List Frame) (f : Frame)
    → 0 < capacity
    → keep_last capacity (last_of capacity fs) f ≡ last_of capacity (fs ++ (f ∷ []))
keep_last-last_of capacity fs f p = elim (dec_lt (length fs) capacity) [
  | yes q ↦ keep_last_below capacity fs f q
  | no q ↦ keep_last_full capacity fs f p (omega arith)
]

module _ {F : Floating} where
  unfoldable pub push_all : MemoryRing F → List Frame → MemoryRing F
  push_all r [] = r
  push_all r (f ∷ fs) = push_all (push r f).0 fs

  push_refused :
      (r : MemoryRing F) (f : Frame)
      → r.closed ≡ false
      → refuses r f ≡ true
      → (push r f).0 ≡ record r { rejected = inc_u64 r.rejected }
  unfolding push
  push_refused r f o e = rw (o, e)

  push_accepted :
      (r : MemoryRing F) (f : Frame)
      → r.closed ≡ false
      → refuses r f ≡ false
      → (push r f).0 ≡ (accept r f).0
  unfolding push
  push_accepted r f o e = rw (o, e)

  push_all_lem :
      (r : MemoryRing F) (seen fs : List Frame)
      → IsValid r
      → r.closed ≡ false
      → contents r ≡ last_of (length r.slots) seen
      → contents (push_all r fs)
        ≡ last_of
            (length r.slots)
            (seen ++ accepted r.options.camera_id r.last_sequence_number r.last_monotonic_time fs)
  unfolding push_all accepted
  push_all_lem r seen [] v o e = rw append-nil e
  push_all_lem r seen (f ∷ fs) v o e = elim (Bool-cases (refuses r f)) [
    | inl h ↦
        rw (push_refused r f o h, h)
          (push_all_lem (record r { rejected = inc_u64 r.rejected }) seen fs
            (rejected-IsValid r (inc_u64 r.rejected) v) o (unfold contents in e))
    | inr h ↦
        let l = accept_lem r f v in
        let next : contents (accept r f).0
            ≡ last_of (length (accept r f).0.slots) (seen ++ (f ∷ [])) =
          l.0
          ∙ ap (λ fs'. keep_last (length r.slots) fs' f) e
          ∙ keep_last-last_of (length r.slots) seen f v.some_slots
          ∙ ap (λ n. last_of n (seen ++ (f ∷ []))) (sym l.1) in
        rw (push_accepted r f o h, h)
          (rw (l.1, l.2, l.4, l.5, append_assoc) at
            (push_all_lem (accept r f).0 (seen ++ (f ∷ [])) fs (accept-IsValid r f v h) (l.3 ∙ o)
              next))
  ]

  new_ring_facts :
      (o : RingOptions F) {r : MemoryRing F}
      → new_ring o ≡ some r
      → (length r.slots ≡ o.capacity_frames)
        × (r.closed ≡ false)
        × (r.options.camera_id ≡ o.camera_id)
        × (r.last_sequence_number ≡ none)
        × (r.last_monotonic_time ≡ none)
        × (contents r ≡ [])
  unfolding new_ring contents gather
  new_ring_facts o e = ground (arith, length-replicate {A = Option Frame} o.capacity_frames none)

  -- After any pushes a new ring holds, oldest first, the last frames of those that it accepted (of
  -- its camera, with number and time going up), as many as its capacity.
  pub push_all-contents :
      (o : RingOptions F) {r : MemoryRing F} (fs : List Frame)
      → new_ring o ≡ some r
      → contents (push_all r fs) ≡ last_of o.capacity_frames (accepted o.camera_id none none fs)
  push_all-contents o {r} fs e =
      let k = new_ring_facts o e in
      push_all_lem r [] fs (new_ring-IsValid o e) k.1 (k.5 ∙ sym (drop-nil (0 - length r.slots)))
      ∙ simp (k.0, k.2, k.3, k.4)
