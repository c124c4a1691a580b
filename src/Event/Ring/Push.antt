-- ===== src/Event/Ring/Push.antt =====
-- One push to the ring of src/event/src/memory_ring.cpp.
use native.Mathlib.Nat.{mod-lt, mod-eq_of_lt}
use paper_breakage_analysis.Base.{
  ℕ, ◌+◌, ◌-◌, ◌%◌, ◌≤◌, ◌<◌, ◌≡◌, refl, sym, ap, ◌∙◌, List, [], ◌∷◌, ◌++◌, false, Option, none,
  some, arith, length, length-append, length-set, drop, ltb, if◌then◌else◌, dec_lt, get_or, u64_mod,
  add_u64, sub_u64,
}
use paper_breakage_analysis.Base.Slots.{gather, gather-push, gather-pop, gather-replace}
use paper_breakage_analysis.Base.Floating.{Floating}
use paper_breakage_analysis.Event.Ring.{
  Frame, MemoryRing, ShortageNotice, refuses, no_later, place, notify, read_capacity,
}
use paper_breakage_analysis.Event.Ring.Contents.{
  contents, IsValid, Ascends, AscendsTo, Ascends-snoc, total_capacity, total_capacity-append,
}

-- The specification: a list of at most `capacity` frames that drops the oldest for a new one.
unfoldable pub keep_last : ℕ → List Frame → Frame → List Frame
keep_last capacity fs f = (if ltb (length fs) capacity then fs else drop 1 fs) ++ (f ∷ [])

module _ {F : Floating} where
  contents_below :
      (r : MemoryRing F) (f : Frame)
      → r.size < length r.slots
      → contents (place r f).0 ≡ contents r ++ (f ∷ [])
  unfolding contents place
  contents_below r f h = ground (arith, gather-push r.slots r.head r.size f h)

  -- The oldest frame of a full ring, and the frames behind it.
  oldest_first :
      (r : MemoryRing F)
      → IsValid r
      → r.size ≡ length r.slots
      → (a : Frame) × (get_or r.slots r.head none ≡ some a)
        × (contents r ≡ a ∷ gather r.slots (r.head + 1) (length r.slots - 1))
  unfolding contents
  oldest_first r v h =
      let (a, e, q, _) = gather-pop r.slots r.head r.size (omega (arith, v.some_slots)) v.full in
      (
        a,
        ap (λ i. get_or r.slots i none) (sym (mod-eq_of_lt v.head_in)) ∙ e,
        q ∙ ap (λ n. a ∷ gather r.slots (r.head + 1) (n - 1)) h,
      )

  contents_full :
      (r : MemoryRing F) (f : Frame)
      → IsValid r
      → r.size ≡ length r.slots
      → contents (place r f).0 ≡ drop 1 (contents r) ++ (f ∷ [])
  unfolding contents place
  contents_full r f v h =
      ground (arith, gather-replace r.slots r.head f v.head_in, oldest_first r v h)

  -- An accepted frame is kept with the last ones, as many as there are slots.
  pub contents-place :
      (r : MemoryRing F) (f : Frame)
      → IsValid r
      → contents (place r f).0 ≡ keep_last (length r.slots) (contents r) f
  unfolding keep_last
  contents-place r f v = elim (dec_lt r.size (length r.slots)) [
    | yes p ↦ contents_below r f p ∙ ground (arith, v.full)
    | no p ↦ contents_full r f v (omega (arith, v.size_in)) ∙ ground (arith, v.full, v.size_in)
  ]

  contents-notify :
      (r : MemoryRing F) (n : Option (ShortageNotice F)) → contents (notify (r, n)) ≡ contents r
  unfolding notify contents
  contents-notify r none = refl
  contents-notify r (some n) = ground arith

Ascends-drop : (fs : List Frame) (n t : ℕ) → Ascends fs n t → Ascends (drop 1 fs) n t
Ascends-drop [] n t a = a
Ascends-drop (f ∷ fs) n t a = a.3

Ascends-keep_last :
    (capacity : ℕ) (fs : List Frame) (f : Frame) (n t : ℕ)
    → Ascends fs n t
    → n < f.sequence_number
    → t < f.received_monotonic_time
    → Ascends (keep_last capacity fs f) f.sequence_number f.received_monotonic_time
unfolding keep_last
Ascends-keep_last capacity fs f n t a p q =
    ground (arith, Ascends-snoc fs f a p q, Ascends-snoc (drop 1 fs) f (Ascends-drop fs n t a) p q)

AscendsTo-keep_last :
    (capacity : ℕ) (fs : List Frame) (f : Frame) (n t : Option ℕ)
    → AscendsTo fs n t
    → no_later n f.sequence_number ≡ false
    → no_later t f.received_monotonic_time ≡ false
    → Ascends (keep_last capacity fs f) f.sequence_number f.received_monotonic_time
unfolding keep_last
AscendsTo-keep_last capacity fs f (some n) (some t) a p q =
    Ascends-keep_last capacity fs f n t a (ground arith) (ground arith)
AscendsTo-keep_last capacity fs f (some n) none a p q = rw a (ground arith)
AscendsTo-keep_last capacity fs f none t a p q = rw a (ground arith)

length-keep_last :
    (capacity : ℕ) (fs : List Frame) (f : Frame)
    → 0 < capacity
    → length fs ≤ capacity
    → length (keep_last capacity fs f)
      ≡ (if ltb (length fs) capacity then length fs + 1 else length fs)
unfolding keep_last
length-keep_last capacity [] f p q = ground arith
length-keep_last capacity (g ∷ fs) f p q =
    ground (arith, length-append fs (f ∷ []), length-append (g ∷ fs) (f ∷ []))

-- The byte count after a swap of the oldest frame for a new one.
swap_bytes : (a rest c : ℕ) → add_u64 (sub_u64 ((a + rest) % u64_mod) a) c ≡ (rest + c) % u64_mod
swap_bytes a rest c = omega arith

module _ {F : Floating} where
  pub place_fields :
      (r : MemoryRing F) (f : Frame)
      → let r' = (place r f).0 in
        (length r'.slots ≡ length r.slots)
        × (r'.last_sequence_number ≡ some f.sequence_number)
        × (r'.last_monotonic_time ≡ some f.received_monotonic_time)
        × (r'.head
            ≡ (if ltb r.size (length r.slots) then r.head else (r.head + 1) % length r.slots))
        × (r'.size ≡ (if ltb r.size (length r.slots) then r.size + 1 else r.size))
        × (r'.resident_bytes
            ≡ add_u64
                (if ltb r.size (length r.slots)
                  then r.resident_bytes
                  else sub_u64 r.resident_bytes (read_capacity (get_or r.slots r.head none)))
                f.buffer_capacity)
  unfolding place
  place_fields r f = ground (
    arith,
    length-set r.slots r.head (some f),
    length-set r.slots ((r.head + r.size) % length r.slots) (some f),
  )

  place_resident :
      (r : MemoryRing F) (f : Frame)
      → IsValid r
      → (place r f).0.resident_bytes
        ≡ total_capacity (keep_last (length r.slots) (contents r) f) % u64_mod
  unfolding keep_last
  place_resident r f v = elim (dec_lt r.size (length r.slots)) [
    | yes p ↦
        ground
          (arith, v.full, v.resident, place_fields r f, total_capacity-append (contents r) (f ∷ []))
    | no p ↦
        let (a, e, q) = oldest_first r v (omega (arith, v.size_in)) in
        let rest = gather r.slots (r.head + 1) (length r.slots - 1) in
        ground (
          arith,
          v.full,
          v.resident,
          place_fields r f,
          ap total_capacity q,
          total_capacity-append rest (f ∷ []),
          swap_bytes a.buffer_capacity (total_capacity rest) f.buffer_capacity,
        )
  ]

  pub place-IsValid :
      (r : MemoryRing F) (f : Frame) → IsValid r → refuses r f ≡ false → IsValid (place r f).0
  place-IsValid r f v e =
      let kept = contents-place r f v in
      let fields = place_fields r f in
      record {
        some_slots = omega (arith, fields, v.some_slots);
        head_in = ground (arith, fields, v.head_in, mod-lt (r.head + 1) v.some_slots);
        size_in = ground (arith, fields, v.size_in);
        full = ground (
          arith,
          fields,
          v.full,
          v.size_in,
          ap length kept,
          length-keep_last (length r.slots) (contents r) f v.some_slots,
        );
        resident = rw kept (place_resident r f v);
        ascends =
            rw (kept, fields.1, fields.2)
              (AscendsTo-keep_last (length r.slots) (contents r) f r.last_sequence_number
                r.last_monotonic_time v.ascends (ground arith) (ground arith));
      }
