-- ===== src/Camera/Reconnect/Schedule.antt =====
-- The retry schedule: how often a retry is armed, and with which delay.
use mathlib.Core.List.{append_assoc}
use paper_breakage_analysis.Base.{
  ℕ, ◌+◌, ◌≤◌, ◌<◌, ◌≡◌, refl, ◌⊎◌, List, [], ◌∷◌, ◌++◌, ap, ◌∙◌, Bool, true, false, none, some,
  arith, length, length-append, length-set, set, get_or, dec_lt, zero, suc, min, ◌-◌,
}
use paper_breakage_analysis.Camera.Reconnect.{
  ReconnectController, default_reconnect_delays, ReconnectStep, schedules, cancels, resets, stops,
  finishes, WaitTicket, WaiterOutcome, maximum_recovery_attempts_limit, new_controller,
  delay_of_attempt, schedule_next, cancel, reset, external_stop, finish_wait, step, run,
}

-- Between two calls: the attempts are bounded, an armed retry was counted and has the delay of its
-- attempt, and the current stop source exists.
pub record IsValid (r : ReconnectController) : Type 0 where
  pub allowed_attempts :
      (0 < r.maximum_attempts) × (r.maximum_attempts ≤ maximum_recovery_attempts_limit)
  pub bounded : r.attempt_count ≤ r.maximum_attempts
  pub armed :
      (r.next_delay ≡ none)
      ⊎ ((0 < r.attempt_count) × (r.next_delay ≡ some (delay_of_attempt r.attempt_count)))
  pub source_exists : r.wait_stop_source < length r.stop_states

pub new_controller-IsValid :
    (maximum : ℕ) {r : ReconnectController} → new_controller maximum ≡ some r → IsValid r
unfolding new_controller
new_controller-IsValid maximum e = ground arith

pub schedule_next-IsValid : (r : ReconnectController) → IsValid r → IsValid (schedule_next r).0
unfolding schedule_next
schedule_next-IsValid r v = ground (
  arith,
  length-set r.stop_states r.wait_stop_source true,
  length-append (set r.stop_states r.wait_stop_source true) (false ∷ []),
)

pub cancel-IsValid : (r : ReconnectController) → IsValid r → IsValid (cancel r)
unfolding cancel
cancel-IsValid r v = ground (arith, length-set r.stop_states r.wait_stop_source true)

pub reset-IsValid : (r : ReconnectController) → IsValid r → IsValid (reset r)
unfolding reset
reset-IsValid r v = ground (
  arith,
  length-set r.stop_states r.wait_stop_source true,
  length-append (set r.stop_states r.wait_stop_source true) (false ∷ []),
)

pub finish_wait-IsValid :
    (r : ReconnectController) (t : WaitTicket) (outcome : WaiterOutcome)
    → IsValid r
    → IsValid (finish_wait r t outcome).0
unfolding finish_wait
finish_wait-IsValid r t outcome v = ground arith

pub external_stop-IsValid :
    (t : WaitTicket) (r : ReconnectController) → IsValid r → IsValid (external_stop t r)
unfolding external_stop
external_stop-IsValid t r v = ground (arith, length-set r.stop_states t.source true)

-- Every call keeps the controller valid.
pub step-IsValid : (r : ReconnectController) (s : ReconnectStep) → IsValid r → IsValid (step r s)
unfolding step
step-IsValid r schedules v = schedule_next-IsValid r v
step-IsValid r cancels v = cancel-IsValid r v
step-IsValid r resets v = reset-IsValid r v
step-IsValid r (stops t) v = external_stop-IsValid t r v
step-IsValid r (finishes t outcome) v = finish_wait-IsValid r t outcome v

pub run-IsValid :
    (r : ReconnectController) (ss : List ReconnectStep) → IsValid r → IsValid (run r ss)
unfolding run
run-IsValid r [] v = v
run-IsValid r (s ∷ ss) v = run-IsValid (step r s) ss (step-IsValid r s v)

-- The table of delays, in order.
delay_at : ℕ → ℕ
delay_at i = get_or default_reconnect_delays i 0

delay_at_step : (i : ℕ) → i < 5 → delay_at i ≤ delay_at (suc i)
unfolding delay_at
delay_at_step zero h = omega arith
delay_at_step (suc zero) h = omega arith
delay_at_step (suc (suc zero)) h = omega arith
delay_at_step (suc (suc (suc zero))) h = omega arith
delay_at_step (suc (suc (suc (suc zero)))) h = omega arith
delay_at_step (suc (suc (suc (suc (suc i))))) h = absurd (omega arith)

delay_at_mono : (i j : ℕ) → i ≤ j → j ≤ 5 → delay_at i ≤ delay_at j
delay_at_mono i zero h b = let e : i ≡ 0 = omega arith in rw e (omega arith)
delay_at_mono i (suc j) h b = elim (dec_lt j i) [
  | yes p ↦ let e : i ≡ suc j = omega arith in rw e (omega arith)
  | no p ↦
      omega (arith, delay_at_mono i j (omega arith) (omega arith), delay_at_step j (omega arith))
]

-- Retries back off: a later attempt never waits for less, and each wait lies between 1 and 60 s.
pub delay_of_attempt_mono :
    (m n : ℕ)
    → m ≤ n
    → (1000 ≤ delay_of_attempt m)
      × (delay_of_attempt m ≤ delay_of_attempt n)
      × (delay_of_attempt n ≤ 60000)
unfolding delay_at
delay_of_attempt_mono m n h = (
  delay_at_mono 0 (min (m - 1) 5) (omega arith) (omega arith),
  delay_at_mono (min (m - 1) 5) (min (n - 1) 5) (omega arith) (omega arith),
  delay_at_mono (min (n - 1) 5) 5 (omega arith) (omega arith),
)

-- The delays of the next `n` attempts after the attempt `c`.
abbrev pub planned : ℕ → ℕ → List ℕ
planned c zero = []
planned c (suc n) = delay_of_attempt (c + 1) ∷ planned (c + 1) n

abbrev pub newly_armed : ReconnectController → ReconnectStep → List ℕ
newly_armed r schedules = elim r.next_delay [
  | some _ ↦ []
  | none ↦ elim (schedule_next r).1 [ none ↦ [] | some d ↦ d ∷ [] ]
]
newly_armed r _ = []

-- The delays of the retries that a sequence of calls arms.
abbrev pub armed_delays : ReconnectController → List ReconnectStep → List ℕ
armed_delays r [] = []
armed_delays r (s ∷ ss) = newly_armed r s ++ armed_delays (step r s) ss

abbrev pub is_reset : ReconnectStep → Bool
is_reset resets = true
is_reset _ = false

abbrev pub NoReset : List ReconnectStep → Type 0
NoReset [] = Unit {0}
NoReset (s ∷ ss) = (is_reset s ≡ false) × NoReset ss

abbrev remaining : ReconnectController → List ℕ
remaining r = planned r.attempt_count (r.maximum_attempts - r.attempt_count)

planned_of_pos :
    (c n : ℕ) → 0 < n → planned c n ≡ delay_of_attempt (c + 1) ∷ planned (c + 1) (n - 1)
planned_of_pos c zero h = absurd (omega arith)
planned_of_pos c (suc n) h = ap (λ k. delay_of_attempt (c + 1) ∷ planned (c + 1) k) (omega arith)

-- One call takes what it arms off the front of what remains.
step_takes :
    (r : ReconnectController) (s : ReconnectStep)
    → is_reset s ≡ false
    → newly_armed r s ++ remaining (step r s) ≡ remaining r
unfolding step schedule_next
step_takes r schedules h =
    ground
      (arith, planned_of_pos r.attempt_count (r.maximum_attempts - r.attempt_count), armed_rest)
  where
    armed_rest :
        planned (r.attempt_count + 1) (r.maximum_attempts - r.attempt_count - 1)
        ≡ planned (r.attempt_count + 1) (r.maximum_attempts - (r.attempt_count + 1))
    armed_rest = ap (planned (r.attempt_count + 1)) (omega arith)
step_takes r cancels h = refl
step_takes r resets h = cc
step_takes r (stops t) h = refl
step_takes r (finishes t outcome) h = ground arith

-- Until the next reset, the retries that any calls arm are the next ones of the plan, in order, and
-- no more than the attempts that remain.
pub armed_delays-planned :
    (r : ReconnectController) (ss : List ReconnectStep)
    → NoReset ss
    → (rest : List ℕ) × (armed_delays r ss ++ rest
        ≡ planned r.attempt_count (r.maximum_attempts - r.attempt_count))
armed_delays-planned r [] h = (_, refl)
armed_delays-planned r (s ∷ ss) h =
    let (rest, e) = armed_delays-planned (step r s) ss h.1 in
    (
      rest,
      append_assoc (newly_armed r s) (armed_delays (step r s) ss) rest
          ∙ ap (◌++◌ (newly_armed r s)) e
          ∙ step_takes r s h.0,
    )
