-- ===== src/Camera/FramePool/Accounts.antt =====
-- The buffers of a pool of src/camera/src/frame_pool.cpp, at rest and lent.
use paper_breakage_analysis.Base.{
  ℕ, zero, suc, ◌+◌, ◌≤◌, ◌≡◌, refl, ap, subst, Bool, true, not, ◌||◌, Option, some, List, [], ◌∷◌,
  length, ltb, ◌==◌, if◌then◌else◌, if-holds, arith,
}
use paper_breakage_analysis.Base.Integers.{ℤ, pos, ltb_ℤ}
use paper_breakage_analysis.Camera.FramePool.{
  FramePool, AcquireResult, PoolCall, pool_after, call_pool, run_pool, fresh_pool, new_pool,
  buffers, take_or, begin_acquire, finish_acquire, release, close, without, is_in, is_at_rest,
  time_out,
}

-- How often a number stands in a list.
abbrev pub count : ℕ → List ℕ → ℕ
count b [] = 0
count b (c ∷ cs) = (if c == b then 1 else 0) + count b cs

-- Each of the buffers below the capacity is at rest or lent, exactly once, and no other is.
pub record IsAccounted (p : FramePool) : Type 0 where
  pub once : (b : ℕ) → count b p.available + count b p.lent ≡ (if ltb b p.capacity then 1 else 0)
  pub whole : length p.available + length p.lent ≡ p.capacity
  pub high : length p.lent ≤ p.in_use_high_watermark
  pub bounded : p.in_use_high_watermark ≤ p.capacity

count-buffers : (n b : ℕ) → count b (buffers n) ≡ (if ltb b n then 1 else 0)
count-buffers zero b = ground arith
count-buffers (suc n) b = ground (arith, count-buffers n b)

length-buffers : (n : ℕ) → length (buffers n) ≡ n
length-buffers zero = refl
length-buffers (suc n) = ap suc (length-buffers n)

count-without :
    (a b : ℕ) (l : List ℕ)
    → is_in b l ≡ true
    → count a (without b l) + (if b == a then 1 else 0) ≡ count a l
count-without a b [] h = cc
count-without a b (c ∷ cs) h = ground (arith, count-without a b cs)

length-without : (b : ℕ) (l : List ℕ) → is_in b l ≡ true → length (without b l) + 1 ≡ length l
length-without b [] h = cc
length-without b (c ∷ cs) h = ground (arith, length-without b cs)

fresh_pool-IsAccounted : (n m : ℕ) → IsAccounted (fresh_pool n m)
fresh_pool-IsAccounted n m = record {
  once = λ b. omega (arith, count-buffers n b);
  whole = omega (arith, length-buffers n);
  high = omega arith;
  bounded = omega arith;
}

new_pool-fresh_pool : (n m : ℕ) {p : FramePool} → new_pool n m ≡ some p → fresh_pool n m ≡ p
unfolding new_pool
new_pool-fresh_pool n m e = ground arith

take_or-IsAccounted :
    (p : FramePool) (l : List ℕ) (r : FramePool × AcquireResult)
    → IsAccounted p
    → p.available ≡ l
    → IsAccounted r.0
    → IsAccounted (take_or p l r).0
unfolding take_or
take_or-IsAccounted p [] r v e w = w
take_or-IsAccounted p (b ∷ rest) r v e w = record {
  once = λ a. omega (arith, v.once a, ap (count a) e);
  whole = omega (arith, v.whole, ap length e);
  high = omega (arith, v.whole, ap length e);
  bounded = omega (arith, v.bounded);
}

-- Only counters of calls change, or the pool is closed.
counted-IsAccounted :
    (p q : FramePool)
    → IsAccounted p
    → q.available ≡ p.available
    → q.lent ≡ p.lent
    → q.capacity ≡ p.capacity
    → q.in_use_high_watermark ≡ p.in_use_high_watermark
    → IsAccounted q
counted-IsAccounted p q v a b c d = record {
  once = λ x. rw (a, b, c) (v.once x);
  whole = rw (a, b, c) v.whole;
  high = rw (b, d) v.high;
  bounded = rw (c, d) v.bounded;
}

begin_acquire-IsAccounted :
    (p : FramePool) (stop : Bool) (limit : ℤ)
    → IsAccounted p
    → IsAccounted (pool_after p (begin_acquire p stop limit))
unfolding begin_acquire
begin_acquire-IsAccounted p stop limit v =
    if-holds P p.closed (λ e. v)
      (λ e.
        if-holds P stop (λ f. counted-IsAccounted p _ v refl refl refl refl)
          (λ f.
            if-holds P (is_at_rest p.available)
              (λ g.
                take_or-IsAccounted p p.available (time_out p) v refl
                  (counted-IsAccounted p _ v refl refl refl refl))
              (λ g.
                if-holds P (not (ltb_ℤ (pos 0) limit))
                  (λ h. counted-IsAccounted p _ v refl refl refl refl) (λ h. v))))
  where
    P : Option (FramePool × AcquireResult) → Type 0
    P o = IsAccounted (pool_after p o)

finish_acquire-IsAccounted :
    (p : FramePool) (stop : Bool) → IsAccounted p → IsAccounted (finish_acquire p stop).0
unfolding finish_acquire
finish_acquire-IsAccounted p stop v =
    let same = counted-IsAccounted p in
    if-holds P (not (p.closed || is_at_rest p.available))
      (λ e. if-holds P stop (λ f. same _ v refl refl refl refl) (λ f. same _ v refl refl refl refl))
      (λ e.
        if-holds P stop (λ f. same _ v refl refl refl refl)
          (λ f.
            if-holds P p.closed (λ g. v)
              (λ g.
                take_or-IsAccounted p p.available (time_out p) v refl
                  (same _ v refl refl refl refl))))
  where
    P : FramePool × AcquireResult → Type 0
    P r = IsAccounted r.0

release-IsAccounted : (p : FramePool) (b : ℕ) → IsAccounted p → IsAccounted (release p b)
unfolding release
release-IsAccounted p b v =
    if-holds IsAccounted (is_in b p.lent)
      (λ e. record {
        once = λ a. omega (arith, v.once a, count-without a b p.lent e);
        whole = omega (arith, v.whole, length-without b p.lent e);
        high = omega (arith, v.high, length-without b p.lent e);
        bounded = v.bounded;
      })
      (λ e. v)

call_pool-IsAccounted : (p : FramePool) (c : PoolCall) → IsAccounted p → IsAccounted (call_pool p c)
unfolding call_pool close
call_pool-IsAccounted p (PoolCall.acquire_begins stop limit) v =
    begin_acquire-IsAccounted p stop limit v
call_pool-IsAccounted p (PoolCall.acquire_ends stop) v = finish_acquire-IsAccounted p stop v
call_pool-IsAccounted p (PoolCall.buffer_returns b) v = release-IsAccounted p b v
call_pool-IsAccounted p PoolCall.pool_closes v = counted-IsAccounted p _ v refl refl refl refl

run_from : (p : FramePool) (cs : List PoolCall) → IsAccounted p → IsAccounted (run_pool p cs)
unfolding run_pool
run_from p [] v = v
run_from p (c ∷ cs) v = run_from (call_pool p c) cs (call_pool-IsAccounted p c v)

-- After any calls on a new pool, and returns of its buffers, in any order, each of its buffers is
-- either at rest or lent to one holder, exactly once: none is lost and none is lent twice. The buffers at
-- rest and those lent make up the capacity, and the high watermark is at least the number lent and at
-- most the capacity.
pub run_pool-IsAccounted :
    (capacity bytes : ℕ) (p : FramePool) (cs : List PoolCall)
    → new_pool capacity bytes ≡ some p
    → IsAccounted (run_pool p cs)
run_pool-IsAccounted n m p cs e =
    run_from p cs (subst IsAccounted (new_pool-fresh_pool n m e) (fresh_pool-IsAccounted n m))
