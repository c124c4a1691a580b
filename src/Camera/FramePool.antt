-- ===== src/Camera/FramePool.antt =====
-- src/camera/src/frame_pool.cpp: a fixed number of frame buffers. A buffer that is lent is known by a
-- number; `lent` lists the numbers out, which the code keeps in its shared pointers. A call of
-- `acquire` is the part before the wait and the part after it, both under the lock.
use paper_breakage_analysis.Base.{
  ℕ, zero, suc, ◌+◌, ◌-◌, max, Bool, true, false, not, ◌&&◌, ◌||◌, Option, none, some, List, [],
  ◌∷◌, length, ltb, ◌==◌, if◌then◌else◌, inc_u64,
}
use paper_breakage_analysis.Base.Integers.{ℤ, pos, ltb_ℤ}
pub mod Accounts

pub data AcquireStatus : Type 0 where
  acquired exhausted timeout stopped closed : AcquireStatus

pub record FramePool : Type 0 where
  pub capacity : ℕ
  pub buffer_capacity_bytes : ℕ
  -- the buffers at rest, the next to lend first
  pub available : List ℕ
  pub in_use_high_watermark : ℕ
  pub acquired : ℕ
  pub exhausted : ℕ
  pub timed_out : ℕ
  pub cancelled : ℕ
  pub closed : Bool
  pub lent : List ℕ

pub record AcquireResult : Type 0 where
  pub status : AcquireStatus
  pub buffer : Option ℕ

-- The buffers are numbered down to 0.
abbrev pub buffers : ℕ → List ℕ
buffers zero = []
buffers (suc n) = n ∷ buffers n

abbrev pub fresh_pool : ℕ → ℕ → FramePool
fresh_pool capacity bytes = record {
  capacity = capacity;
  buffer_capacity_bytes = bytes;
  available = buffers capacity;
  in_use_high_watermark = 0;
  acquired = 0;
  exhausted = 0;
  timed_out = 0;
  cancelled = 0;
  closed = false;
  lent = [];
}

-- The constructor refuses a size of zero.
unfoldable pub new_pool : ℕ → ℕ → Option FramePool
new_pool capacity bytes =
    if capacity == 0 || bytes == 0 then none else some (fresh_pool capacity bytes)

abbrev pub empty_handed : AcquireStatus → AcquireResult
empty_handed status = record { status = status; buffer = none }

abbrev pub cancel : FramePool → FramePool × AcquireResult
cancel p = (record p { cancelled = inc_u64 p.cancelled }, empty_handed AcquireStatus.stopped)

abbrev pub time_out : FramePool → FramePool × AcquireResult
time_out p = (record p { timed_out = inc_u64 p.timed_out }, empty_handed AcquireStatus.timeout)

-- The first buffer at rest, or what an empty pool answers.
unfoldable pub take_or : FramePool → List ℕ → FramePool × AcquireResult → FramePool × AcquireResult
take_or p [] otherwise = otherwise
take_or p (b ∷ rest) otherwise = (
  record p {
    available = rest;
    acquired = inc_u64 p.acquired;
    in_use_high_watermark = max p.in_use_high_watermark (p.capacity - length rest);
    lent = b ∷ p.lent;
  },
  record { status = AcquireStatus.acquired; buffer = some b },
)

abbrev pub is_at_rest : List ℕ → Bool
is_at_rest [] = false
is_at_rest (b ∷ bs) = true

-- `acquire` up to the wait: an answer, or none where it waits.
unfoldable pub begin_acquire : FramePool → Bool → ℤ → Option (FramePool × AcquireResult)
unfolding take_or
begin_acquire p stop_requested limit =
    if p.closed
    then some (p, empty_handed AcquireStatus.closed)
    else if stop_requested
    then some (cancel p)
    else if is_at_rest p.available
    then some (take_or p p.available (time_out p))
    else if not (ltb_ℤ (pos 0) limit)
    then some (record p { exhausted = inc_u64 p.exhausted }, empty_handed AcquireStatus.exhausted)
    else none

-- And from the return of the wait, on the pool as it is then.
unfoldable pub finish_acquire : FramePool → Bool → FramePool × AcquireResult
unfolding take_or
finish_acquire p stop_requested =
    let ready = p.closed || is_at_rest p.available in
    if not ready
    then if stop_requested then cancel p else time_out p
    else if stop_requested
    then cancel p
    else if p.closed
    then (p, empty_handed AcquireStatus.closed)
    else take_or p p.available (time_out p)

-- The first entry of a number, taken out.
abbrev pub without : ℕ → List ℕ → List ℕ
without b [] = []
without b (c ∷ cs) = let rest = without b cs in if c == b then cs else c ∷ rest

abbrev pub is_in : ℕ → List ℕ → Bool
is_in b [] = false
is_in b (c ∷ cs) = c == b || is_in b cs

-- The last owner of a buffer that is lent lets go of it.
unfoldable pub release : FramePool → ℕ → FramePool
release p b =
    if is_in b p.lent then record p { available = b ∷ p.available; lent = without b p.lent } else p

unfoldable pub close : FramePool → FramePool
close p = record p { closed = true }

-- The calls on a pool and on its buffers, in the order in which they take the lock.
pub data PoolCall : Type 0 where
  acquire_begins : Bool → ℤ → PoolCall
  acquire_ends : Bool → PoolCall
  buffer_returns : ℕ → PoolCall
  pool_closes : PoolCall

-- The pool after a call that may go on waiting.
abbrev pub pool_after : FramePool → Option (FramePool × AcquireResult) → FramePool
pool_after p none = p
pool_after p (some r) = r.0

unfoldable pub call_pool : FramePool → PoolCall → FramePool
unfolding begin_acquire finish_acquire release close
call_pool p (PoolCall.acquire_begins stop limit) = pool_after p (begin_acquire p stop limit)
call_pool p (PoolCall.acquire_ends stop) = (finish_acquire p stop).0
call_pool p (PoolCall.buffer_returns b) = release p b
call_pool p PoolCall.pool_closes = close p

unfoldable pub run_pool : FramePool → List PoolCall → FramePool
run_pool p [] = p
run_pool p (c ∷ cs) = run_pool (call_pool p c) cs
