-- ===== src/Queue/Refine.antt =====
-- The queues of src/camera/src/acquisition.cpp and src/pipeline/src/pipeline.cpp, against the list that
-- Queue/Fifo describes.
use native.Mathlib.Nat.{mod-lt}
use paper_breakage_analysis.Base.{
  ℕ, ◌+◌, ◌%◌, ◌<◌, ◌≡◌, refl, sym, subst, subst₂, length-replicate, ap, ap₂, ◌∙◌, Bool, true,
  false, not, ◌||◌, Option, none, some, List, [], ◌∷◌, ◌++◌, arith, length, length-set,
  if◌then◌else◌, if-holds, ifs-hold, drop, Bool-cases, inl, inr, ltb,
}
use paper_breakage_analysis.Base.Integers.{ℤ, pos, ltb_ℤ}
use paper_breakage_analysis.Base.Slots.{gather}
use paper_breakage_analysis.Queue.{
  BoundedQueue, DequeueResult, DequeueStatus, new_queue, skip_oldest, append, push, pop_frame,
  is_full, timed_out, found_closed, begin_wait, finish_wait, close,
}
use paper_breakage_analysis.Queue.Contents.{
  contents, IsValid, new_queue-IsValid, advance_lem, skip_oldest-IsValid, contents-append,
  append-IsValid,
}
use paper_breakage_analysis.Queue.Fifo.{
  Fifo, Call, Answer, fifo_push, take_first, take_or_wait, fifo_begin, fifo_finish, or_waits,
  fifo_step, step, fifo_answers, answers,
}

module _ {ℓ} {A : Type ℓ} where
  abbrev pub view : BoundedQueue A → Fifo A
  view q = record { items = contents q; closed = q.closed }

  -- A queue that is valid, looks like `f` and has `n` slots.
  abbrev Shows : ℕ → BoundedQueue A → Fifo A → Type ℓ
  Shows n q f = IsValid q × (view q ≡ f) × (length q.slots ≡ n)

  -- The same state and the same answer.
  abbrev Agrees {κ} : {R : Type κ} → ℕ → BoundedQueue A × R → Fifo A × R → Type (ℓ ⊔ κ)
  Agrees n (q, r) (f, s) = Shows n q f × (r ≡ s)

  contents-skip_oldest :
      (q : BoundedQueue A) → IsValid q → 0 < q.size → contents (skip_oldest q) ≡ drop 1 (contents q)
  unfolding skip_oldest contents
  contents-skip_oldest q v p = sym (ap (drop 1) (advance_lem q v p).2)

  append-Shows :
      (q : BoundedQueue A) (a : A)
      → IsValid q
      → q.size < length q.slots
      → Shows
          (length q.slots)
          (append q a)
          (record { items = contents q ++ (a ∷ []); closed = q.closed })
  unfolding append
  append-Shows q a v h = (
    append-IsValid q a v h,
    ap (λ l. record { items = l; closed = q.closed }) (contents-append q a h),
    length-set q.slots ((q.head + q.size) % length q.slots) (some a),
  )

  -- Only the counters of a queue change.
  counted-Shows :
      (q q' : BoundedQueue A)
      → IsValid q
      → q'.slots ≡ q.slots
      → q'.head ≡ q.head
      → q'.size ≡ q.size
      → q'.closed ≡ q.closed
      → Shows (length q.slots) q' (view q)
  unfolding contents
  counted-Shows q q' v a b c d =
      let same : contents q' ≡ contents q = rw (a, b, c) refl in
      (
        record {
          some_slots = rw a v.some_slots;
          head_in = rw (a, b) v.head_in;
          size_in = rw (a, c) v.size_in;
          full = ap length same ∙ v.full ∙ sym c;
        },
        rw (same, d) refl,
        ap length a,
      )

  push_full-Shows :
      (q : BoundedQueue A) (a : A)
      → IsValid q
      → q.size ≡ length q.slots
      → Shows
          (length q.slots)
          (append (skip_oldest q) a)
          (record { items = drop 1 (contents q) ++ (a ∷ []); closed = q.closed })
  unfolding skip_oldest
  push_full-Shows q a v h =
      let there : 0 < q.size = omega (arith, v.some_slots) in
      let same = length-set q.slots q.head none in
      let shows =
        append-Shows (skip_oldest q) a (skip_oldest-IsValid q v there) (omega (arith, same)) in
      (
        shows.0,
        shows.1
            ∙ ap (λ l. record { items = l ++ (a ∷ []); closed = q.closed })
                (contents-skip_oldest q v there),
        shows.2 ∙ same,
      )

  push-Agrees :
      (q : BoundedQueue A) (a : A)
      → IsValid q
      → Agrees (length q.slots) (push q a) (fifo_push (length q.slots) (view q) a)
  unfolding push fifo_push
  push-Agrees q a v = rw v.full (
      ifs-hold (Agrees (length q.slots)) q.closed
        (λ e. (counted-Shows q _ v refl refl refl refl, refl))
        (λ e.
          ifs-hold (Agrees (length q.slots)) (is_full q)
            (λ f. (push_full-Shows q a v (ground arith), refl))
            (λ f. (append-Shows q a v (ground (arith, v.size_in)), refl))))

  contents_none : (q : BoundedQueue A) → ltb 0 q.size ≡ false → contents q ≡ []
  unfolding contents gather
  contents_none q e = let none : q.size ≡ 0 = ground arith in rw none refl

  pop_frame-Agrees :
      (q : BoundedQueue A) (otherwise : DequeueStatus)
      → IsValid q
      → ltb 0 q.size ≡ true
      → Agrees (length q.slots) (pop_frame q) (take_first (view q) (contents q) otherwise)
  unfolding pop_frame take_first contents gather
  pop_frame-Agrees q otherwise v e =
      let (a, here, whole, rest) = advance_lem q v (ground arith) in
      let same = length-set q.slots q.head none in
      rw whole (
        (
          record {
            some_slots = omega (arith, same, v.some_slots);
            head_in = omega (arith, same, mod-lt (q.head + 1) v.some_slots);
            size_in = omega (arith, same, v.size_in);
            full = rest;
          },
          refl,
          same,
        ),
        ap (λ o. record { status = DequeueStatus.frame; frame = o }) here,
      )

  -- A queue with frames, and the list that it shows.
  shown_first :
      (q : BoundedQueue A)
      → IsValid q
      → ltb 0 q.size ≡ true
      → (limit : ℤ)
      → take_or_wait (view q) (contents q) limit
        ≡ some (take_first (view q) (contents q) DequeueStatus.timeout)
  unfolding take_or_wait
  shown_first q v e limit =
      let (a, here, whole, rest) = advance_lem q v (ground arith) in rw whole refl

  abbrev idle_wait : BoundedQueue A → ℤ → Option (BoundedQueue A × DequeueResult A)
  idle_wait q limit =
      if q.closed
      then some (found_closed q)
      else if ltb_ℤ (pos 0) limit
      then none
      else some (timed_out q)

  -- An empty queue and an empty list, where neither call is told to stop.
  empty_begin-Agrees :
      (q : BoundedQueue A) (limit : ℤ)
      → IsValid q
      → Agrees
          (length q.slots)
          (or_waits q (idle_wait q limit))
          (or_waits (view q) (take_or_wait (view q) [] limit))
  unfolding take_or_wait
  empty_begin-Agrees q limit v =
      ifs-hold both q.closed (λ e. (counted-Shows q _ v refl refl refl refl, refl))
        (λ e.
          ifs-hold both (ltb_ℤ (pos 0) limit) (λ f. (counted-Shows q _ v refl refl refl refl, refl))
            (λ f. (counted-Shows q _ v refl refl refl refl, refl)))
    where
      both : Option (BoundedQueue A × DequeueResult A) → Option (Fifo A × DequeueResult A) → Type ℓ
      both o p = Agrees (length q.slots) (or_waits q o) (or_waits (view q) p)

  begin_wait-Agrees :
      (q : BoundedQueue A) (stop : Bool) (limit : ℤ)
      → IsValid q
      → Agrees
          (length q.slots)
          (or_waits q (begin_wait q stop limit))
          (or_waits (view q) (fifo_begin (view q) stop limit))
  unfolding begin_wait fifo_begin
  begin_wait-Agrees q true limit v = (counted-Shows q _ v refl refl refl refl, refl)
  begin_wait-Agrees q false limit v =
      if-holds
        (λ o.
          Agrees (length q.slots) (or_waits q o)
            (or_waits (view q) (take_or_wait (view q) (contents q) limit)))
        (ltb 0 q.size)
        (λ e.
          subst
            (λ o. Agrees (length q.slots) (or_waits q (some (pop_frame q))) (or_waits (view q) o))
            (sym (shown_first q v e limit))
            (let agrees = pop_frame-Agrees q DequeueStatus.timeout v e in
              (agrees.0, ap Answer.popped agrees.1)))
        (λ e.
          subst
            (λ l.
              Agrees (length q.slots) (or_waits q (idle_wait q limit))
                (or_waits (view q) (take_or_wait (view q) l limit)))
            (sym (contents_none q e)) (empty_begin-Agrees q limit v))

  empty_finish-Agrees :
      (q : BoundedQueue A)
      → IsValid q
      → Agrees
          (length q.slots)
          (if q.closed then found_closed q else timed_out q)
          (take_first (view q) [] DequeueStatus.timeout)
  unfolding take_first
  empty_finish-Agrees q v =
      if-holds (λ o. Agrees (length q.slots) o (take_first (view q) [] DequeueStatus.timeout))
        q.closed (λ e. (counted-Shows q _ v refl refl refl refl, rw e refl))
        (λ e. (counted-Shows q _ v refl refl refl refl, rw e refl))

  closed-Shows :
      (q : BoundedQueue A)
      → IsValid q
      → Shows (length q.slots) (close q) (record { items = contents q; closed = true })
  unfolding contents close
  closed-Shows q v = (
    record { some_slots = v.some_slots; head_in = v.head_in; size_in = v.size_in; full = v.full },
    refl,
    refl,
  )

  new_queue-Shows :
      (n : ℕ) {q : BoundedQueue A}
      → new_queue n ≡ some q
      → (view q ≡ record { items = []; closed = false }) × (length q.slots ≡ n)
  unfolding new_queue contents gather
  new_queue-Shows n e = ground (arith, length-replicate {A = Option A} n none)

  finish_wait-Agrees :
      (q : BoundedQueue A) (stop : Bool)
      → IsValid q
      → Agrees (length q.slots) (finish_wait q stop) (fifo_finish (view q) stop)
  unfolding finish_wait fifo_finish
  finish_wait-Agrees q true v = (counted-Shows q _ v refl refl refl refl, refl)
  finish_wait-Agrees q false v = elim (Bool-cases (ltb 0 q.size)) [
    | inl e ↦
        let ready : (if not (q.closed || ltb 0 q.size)
              then timed_out q
              else if ltb 0 q.size
              then pop_frame q
              else found_closed q)
            ≡ pop_frame q =
          ground arith in
        subst
          (λ o. Agrees (length q.slots) o (take_first (view q) (contents q) DequeueStatus.timeout))
          (sym ready) (pop_frame-Agrees q DequeueStatus.timeout v e)
    | inr e ↦
        let idle : (if not (q.closed || ltb 0 q.size)
              then timed_out q
              else if ltb 0 q.size
              then pop_frame q
              else found_closed q)
            ≡ (if q.closed then found_closed q else timed_out q) =
          ground arith in
        subst₂ (λ o l. Agrees (length q.slots) o (take_first (view q) l DequeueStatus.timeout))
          (sym idle) (sym (contents_none q e)) (empty_finish-Agrees q v)
  ]

  step-Agrees :
      (q : BoundedQueue A) (c : Call A)
      → IsValid q
      → Agrees (length q.slots) (step q c) (fifo_step (length q.slots) (view q) c)
  unfolding step fifo_step close
  step-Agrees q (Call.push_frame a) v =
      let agrees = push-Agrees q a v in (agrees.0, ap Answer.pushed agrees.1)
  step-Agrees q (Call.wait_begins stop limit) v = begin_wait-Agrees q stop limit v
  step-Agrees q (Call.wait_ends stop) v =
      let agrees = finish_wait-Agrees q stop v in (agrees.0, ap Answer.popped agrees.1)
  step-Agrees q Call.close_queue v = (closed-Shows q v, refl)

  pub step-IsValid : (q : BoundedQueue A) (c : Call A) → IsValid q → IsValid (step q c).0
  step-IsValid q c v = (step-Agrees q c v).0.0

  -- From any valid queue on.
  answers_from :
      (n : ℕ) (q : BoundedQueue A) (f : Fifo A) (cs : List (Call A))
      → Shows n q f
      → answers q cs ≡ fifo_answers n f cs
  unfolding answers fifo_answers
  answers_from n q f [] s = refl
  answers_from n q f (c ∷ cs) (v, e, l) =
      let agrees : Agrees n (step q c) (fifo_step n f c) =
        subst₂ (λ m g. Agrees m (step q c) (fifo_step m g c)) l e (step-Agrees q c v) in
      ap₂ ◌∷◌ agrees.1 (answers_from n (step q c).0 (fifo_step n f c).0 cs agrees.0)

  -- A new queue of any capacity but zero answers every sequence of calls, pushes, waits in their two
  -- parts and closings by any threads in any order, as the list of the last frames does: the frames come
  -- out in the order of their pushes, a push on a full queue costs the oldest frame, and no other call
  -- loses, repeats or reorders a frame.
  pub answers-fifo_answers :
      (capacity : ℕ) (q : BoundedQueue A) (cs : List (Call A))
      → new_queue capacity ≡ some q
      → answers q cs ≡ fifo_answers capacity (record { items = []; closed = false }) cs
  answers-fifo_answers capacity q cs e =
      let shows = new_queue-Shows capacity e in
      answers_from capacity q (record { items = []; closed = false }) cs
        (new_queue-IsValid capacity e, shows.0, shows.1)
