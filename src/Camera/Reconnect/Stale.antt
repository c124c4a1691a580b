-- ===== src/Camera/Reconnect/Stale.antt =====
-- Waits of src/camera/src/state.cpp that a `cancel`, a `reset` or a later retry overtakes.
use paper_breakage_analysis.Base.{
  ℕ, zero, suc, ◌<◌, ◌≡◌, refl, subst, ◌⊎◌, inl, inr, List, [], ◌∷◌, ◌++◌, Bool, true, false, some,
  arith, length, get_or, set,
}
use paper_breakage_analysis.Camera.Reconnect.{
  ReconnectController, ReconnectStep, WaitTicket, WaiterOutcome, cancelled, schedules, cancels,
  resets, stops, finishes, begin_wait, finish_wait, step, run, is_stopped,
}
use paper_breakage_analysis.Camera.Reconnect.Schedule.{IsValid, step-IsValid, run-IsValid}

-- A stop state never goes back.
get_or-set-true :
    (xs : List Bool) (i j : ℕ) → get_or xs j false ≡ true → get_or (set xs i true) j false ≡ true
get_or-set-true [] i j h = h
get_or-set-true (x ∷ xs) zero zero h = refl
get_or-set-true (x ∷ xs) zero (suc j) h = h
get_or-set-true (x ∷ xs) (suc i) zero h = h
get_or-set-true (x ∷ xs) (suc i) (suc j) h = get_or-set-true xs i j h

get_or-append_true :
    (xs ys : List Bool) (j : ℕ) → get_or xs j false ≡ true → get_or (xs ++ ys) j false ≡ true
get_or-append_true [] ys j h = cc
get_or-append_true (x ∷ xs) ys zero h = h
get_or-append_true (x ∷ xs) ys (suc j) h = get_or-append_true xs ys j h

get_or-set_self_true :
    (xs : List Bool) (i : ℕ) → i < length xs → get_or (set xs i true) i false ≡ true
get_or-set_self_true [] i h = absurd (omega arith)
get_or-set_self_true (x ∷ xs) zero h = refl
get_or-set_self_true (x ∷ xs) (suc i) h = get_or-set_self_true xs i (omega arith)

step_keeps_stopped :
    (r : ReconnectController) (s : ReconnectStep) (i : ℕ)
    → is_stopped r i ≡ true
    → is_stopped (step r s) i ≡ true
unfolding step
step_keeps_stopped r schedules i h = ground (
  arith,
  get_or-set-true r.stop_states r.wait_stop_source i,
  get_or-append_true (set r.stop_states r.wait_stop_source true) (false ∷ []) i,
)
step_keeps_stopped r cancels i h = get_or-set-true r.stop_states r.wait_stop_source i h
step_keeps_stopped r resets i h =
    get_or-append_true (set r.stop_states r.wait_stop_source true) (false ∷ []) i
      (get_or-set-true r.stop_states r.wait_stop_source i h)
step_keeps_stopped r (stops t) i h = get_or-set-true r.stop_states t.source i h
step_keeps_stopped r (finishes t outcome) i h = ground arith

run_keeps_stopped :
    (r : ReconnectController) (ss : List ReconnectStep) (i : ℕ)
    → is_stopped r i ≡ true
    → is_stopped (run r ss) i ≡ true
unfolding run
run_keeps_stopped r [] i h = h
run_keeps_stopped r (s ∷ ss) i h = run_keeps_stopped (step r s) ss i (step_keeps_stopped r s i h)

-- What ends the wait of a controller: `cancel`, `reset`, or a stop of the ticket by its caller.
pub data Interrupts (t : WaitTicket) : ReconnectStep → Type 0 where
  by_cancel : Interrupts t cancels
  by_reset : Interrupts t resets
  by_stop : Interrupts t (stops t)

-- The source of a ticket is current until it is stopped.
abbrev IsTracked : ReconnectController → ℕ → Type 0
IsTracked r i = (is_stopped r i ≡ true) ⊎ (r.wait_stop_source ≡ i)

replaced_source :
    (r : ReconnectController)
    → IsValid r
    → get_or (set r.stop_states r.wait_stop_source true ++ (false ∷ [])) r.wait_stop_source false
      ≡ true
replaced_source r v =
    get_or-append_true (set r.stop_states r.wait_stop_source true) (false ∷ []) r.wait_stop_source
      (get_or-set_self_true r.stop_states r.wait_stop_source v.source_exists)

current_step :
    (r : ReconnectController) (s : ReconnectStep)
    → IsValid r
    → IsTracked (step r s) r.wait_stop_source
unfolding step
current_step r schedules v = ground (arith, replaced_source r v)
current_step r cancels v = inr refl
current_step r resets v = inl (replaced_source r v)
current_step r (stops t) v = inr refl
current_step r (finishes t outcome) v = ground arith

step-IsTracked :
    (r : ReconnectController) (s : ReconnectStep) (i : ℕ)
    → IsValid r
    → IsTracked r i
    → IsTracked (step r s) i
step-IsTracked r s i v (inl h) = inl (step_keeps_stopped r s i h)
step-IsTracked r s i v (inr e) = subst (IsTracked (step r s)) e (current_step r s v)

run-IsTracked :
    (r : ReconnectController) (ss : List ReconnectStep) (i : ℕ)
    → IsValid r
    → IsTracked r i
    → IsTracked (run r ss) i
unfolding run
run-IsTracked r [] i v h = h
run-IsTracked r (s ∷ ss) i v h =
    run-IsTracked (step r s) ss i (step-IsValid r s v) (step-IsTracked r s i v h)

current_interrupt :
    (r : ReconnectController) {t : WaitTicket} {s : ReconnectStep}
    → IsValid r
    → r.wait_stop_source ≡ t.source
    → Interrupts t s
    → is_stopped (step r s) t.source ≡ true
unfolding step
current_interrupt r v e by_cancel =
    ground (arith, get_or-set_self_true r.stop_states r.wait_stop_source v.source_exists)
current_interrupt r v e by_reset = rw (← e) (replaced_source r v)
current_interrupt r v e by_stop =
    ground (arith, get_or-set_self_true r.stop_states r.wait_stop_source v.source_exists)

interrupt_stops :
    (r : ReconnectController) {t : WaitTicket} {s : ReconnectStep}
    → IsValid r
    → IsTracked r t.source
    → Interrupts t s
    → is_stopped (step r s) t.source ≡ true
interrupt_stops r {t} {s} v (inl h) i = step_keeps_stopped r s t.source h
interrupt_stops r v (inr e) i = current_interrupt r v e i

begin_wait-IsTracked :
    (r : ReconnectController) (t : WaitTicket) → begin_wait r ≡ some t → IsTracked r t.source
unfolding begin_wait
begin_wait-IsTracked r t e = ground arith

stopped_never_ready :
    (r : ReconnectController) (t : WaitTicket) (outcome : WaiterOutcome)
    → is_stopped r t.source ≡ true
    → finish_wait r t outcome ≡ (r, cancelled)
unfolding finish_wait
stopped_never_ready r t outcome h = ground arith

-- A wait that was interrupted is not `ready` when it ends, and leaves the controller as it is,
-- whatever calls ran before, between and after the interruption.
pub interrupted_wait_never_ready :
    (r : ReconnectController) (t : WaitTicket) (before after : List ReconnectStep)
    (s : ReconnectStep) (outcome : WaiterOutcome)
    → IsValid r
    → begin_wait r ≡ some t
    → Interrupts t s
    → let r' = run (step (run r before) s) after in finish_wait r' t outcome ≡ (r', cancelled)
interrupted_wait_never_ready r t before after s outcome v e i =
    let stopped =
      interrupt_stops (run r before) (run-IsValid r before v)
        (run-IsTracked r before t.source v (begin_wait-IsTracked r t e)) i in
    stopped_never_ready (run (step (run r before) s) after) t outcome
      (run_keeps_stopped (step (run r before) s) after t.source stopped)
