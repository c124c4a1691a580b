-- ===== src/Queue/Account.antt =====
-- The counters that `snapshot` of a queue reports.
use paper_breakage_analysis.Base.{
  ℕ, ◌+◌, ◌%◌, ◌≤◌, ◌<◌, ◌≡◌, refl, Bool, true, not, ◌||◌, Option, none, some, List, [], ◌∷◌, arith,
  length, length-set, length-replicate, if-holds, u64_mod, ltb,
}
use paper_breakage_analysis.Base.Integers.{ℤ, pos, ltb_ℤ}
use paper_breakage_analysis.Queue.{
  BoundedQueue, DequeueResult, EnqueueStatus, new_queue, skip_oldest, append, push, pop_frame,
  is_full, begin_wait, finish_wait, close,
}
use paper_breakage_analysis.Queue.Contents.{IsValid, new_queue-IsValid}
use paper_breakage_analysis.Queue.Fifo.{Call, or_waits, step}
use paper_breakage_analysis.Queue.Refine.{step-IsValid}

module _ {ℓ} {A : Type ℓ} where
  -- Every frame that was accepted was taken, skipped, or is still there.
  pub record IsAccounted (q : BoundedQueue A) : Type 0 where
    pub fits : q.size ≤ length q.slots
    pub depth_is_size : q.depth ≡ q.size
    pub depth_below : q.depth ≤ q.high_watermark
    pub high_below : q.high_watermark ≤ length q.slots
    pub balance : q.enqueued ≡ (q.dequeued + q.skipped + q.depth) % u64_mod

  append-IsAccounted :
      (q : BoundedQueue A) (a : A)
      → q.size < length q.slots
      → q.high_watermark ≤ length q.slots
      → q.enqueued ≡ (q.dequeued + q.skipped + q.size) % u64_mod
      → IsAccounted (append q a)
  unfolding append
  append-IsAccounted q a h w b =
      let same = length-set q.slots ((q.head + q.size) % length q.slots) (some a) in
      record {
        fits = omega (arith, same);
        depth_is_size = refl;
        depth_below = omega arith;
        high_below = omega (arith, same);
        balance = omega arith;
      }

  -- Only other counters change.
  counted-IsAccounted :
      (q q' : BoundedQueue A)
      → IsAccounted q
      → q'.slots ≡ q.slots
      → q'.size ≡ q.size
      → q'.depth ≡ q.depth
      → q'.high_watermark ≡ q.high_watermark
      → q'.enqueued ≡ q.enqueued
      → q'.dequeued ≡ q.dequeued
      → q'.skipped ≡ q.skipped
      → IsAccounted q'
  counted-IsAccounted q q' v a b c d e f g = record {
    fits = rw (a, b) v.fits;
    depth_is_size = rw (b, c) v.depth_is_size;
    depth_below = rw (c, d) v.depth_below;
    high_below = rw (a, d) v.high_below;
    balance = rw (c, e, f, g) v.balance;
  }

  push-IsAccounted :
      (q : BoundedQueue A) (a : A) → 0 < length q.slots → IsAccounted q → IsAccounted (push q a).0
  unfolding push skip_oldest
  push-IsAccounted q a p v =
      if-holds P q.closed (λ e. counted-IsAccounted q _ v refl refl refl refl refl refl refl)
        (λ e.
          if-holds P (is_full q)
            (λ f.
              let same = length-set q.slots q.head none in
              let full : q.size ≡ length q.slots = ground arith in
              append-IsAccounted (skip_oldest q) a (omega (arith, same, full))
                (omega (arith, same, v.high_below))
                (omega (arith, v.balance, v.depth_is_size, full)))
            (λ f.
              append-IsAccounted q a (ground (arith, v.fits)) v.high_below
                (omega (arith, v.balance, v.depth_is_size))))
    where
      P : BoundedQueue A × EnqueueStatus → Type 0
      P r = IsAccounted r.0

  pop_frame-IsAccounted :
      (q : BoundedQueue A) → ltb 0 q.size ≡ true → IsAccounted q → IsAccounted (pop_frame q).0
  unfolding pop_frame
  pop_frame-IsAccounted q e v =
      let same = length-set q.slots q.head none in
      let some : 0 < q.size = ground arith in
      record {
        fits = omega (arith, same, v.fits);
        depth_is_size = refl;
        depth_below = omega (arith, v.depth_is_size, v.depth_below);
        high_below = omega (arith, same, v.high_below);
        balance = omega (arith, v.balance, v.depth_is_size);
      }

  begin_wait-IsAccounted :
      (q : BoundedQueue A) (stop : Bool) (limit : ℤ)
      → IsAccounted q
      → IsAccounted (or_waits q (begin_wait q stop limit)).0
  unfolding begin_wait
  begin_wait-IsAccounted q stop limit v =
      if-holds P stop (λ e. counted-IsAccounted q _ v refl refl refl refl refl refl refl)
        (λ e.
          if-holds P (ltb 0 q.size) (λ f. pop_frame-IsAccounted q f v)
            (λ f.
              if-holds P q.closed (λ g. v)
                (λ g.
                  if-holds P (ltb_ℤ (pos 0) limit) (λ h. v)
                    (λ h. counted-IsAccounted q _ v refl refl refl refl refl refl refl))))
    where
      P : Option (BoundedQueue A × DequeueResult A) → Type 0
      P o = IsAccounted (or_waits q o).0

  finish_wait-IsAccounted :
      (q : BoundedQueue A) (stop : Bool) → IsAccounted q → IsAccounted (finish_wait q stop).0
  unfolding finish_wait
  finish_wait-IsAccounted q stop v =
      if-holds P stop (λ e. counted-IsAccounted q _ v refl refl refl refl refl refl refl)
        (λ e.
          if-holds P (not (q.closed || ltb 0 q.size))
            (λ f. counted-IsAccounted q _ v refl refl refl refl refl refl refl)
            (λ f. if-holds P (ltb 0 q.size) (λ g. pop_frame-IsAccounted q g v) (λ g. v)))
    where
      P : BoundedQueue A × DequeueResult A → Type 0
      P r = IsAccounted r.0

  step-IsAccounted :
      (q : BoundedQueue A) (c : Call A)
      → 0 < length q.slots
      → IsAccounted q
      → IsAccounted (step q c).0
  unfolding step close
  step-IsAccounted q (Call.push_frame a) p v = push-IsAccounted q a p v
  step-IsAccounted q (Call.wait_begins stop limit) p v = begin_wait-IsAccounted q stop limit v
  step-IsAccounted q (Call.wait_ends stop) p v = finish_wait-IsAccounted q stop v
  step-IsAccounted q Call.close_queue p v =
      counted-IsAccounted q _ v refl refl refl refl refl refl refl

  new_queue-IsAccounted : (n : ℕ) {q : BoundedQueue A} → new_queue n ≡ some q → IsAccounted q
  unfolding new_queue
  new_queue-IsAccounted n e = ground (arith, length-replicate {A = Option A} n none)

  -- The queue after some calls.
  unfoldable pub run : BoundedQueue A → List (Call A) → BoundedQueue A
  run q [] = q
  run q (c ∷ cs) = run (step q c).0 cs

  run_from :
      (q : BoundedQueue A) (cs : List (Call A)) → IsValid q → IsAccounted q → IsAccounted (run q cs)
  unfolding run
  run_from q [] v w = w
  run_from q (c ∷ cs) v w =
      run_from (step q c).0 cs (step-IsValid q c v) (step-IsAccounted q c v.some_slots w)

  -- After any calls on a new queue its counters account for every accepted frame: as many were enqueued
  -- as were dequeued, skipped or are still in it, in 64-bit arithmetic; the depth is the size, and no
  -- depth is above the high watermark nor that above the capacity.
  pub run-IsAccounted :
      (capacity : ℕ) (q : BoundedQueue A) (cs : List (Call A))
      → new_queue capacity ≡ some q
      → IsAccounted (run q cs)
  run-IsAccounted capacity q cs e =
      run_from q cs (new_queue-IsValid capacity e) (new_queue-IsAccounted capacity e)
