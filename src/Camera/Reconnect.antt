-- ===== src/Camera/Reconnect.antt =====
-- The `ReconnectController` of src/camera: the bounded retry schedule of one camera, and the wait
-- for the scheduled delay, which other calls may interrupt. The lock is released during the wait,
-- so `wait_for_scheduled` is two steps, `begin_wait` and `finish_wait`, and a stop source is an
-- index into the list of the stop states of all sources made so far.
pub mod Schedule
pub mod Stale
use paper_breakage_analysis.Base.{
  ℕ, ◌+◌, ◌-◌, min, List, [], ◌∷◌, ◌++◌, Bool, true, false, not, ◌&&◌, ◌||◌, Option, none, some,
  Result, success, failure, Error, ErrorDetail, error, text, number, detail, make_error, length,
  get_or, set, ltb, leb, ◌==◌, if◌then◌else◌, inc_u64,
}

abbrev pub maximum_recovery_attempts_limit : ℕ
maximum_recovery_attempts_limit = 1024

-- In milliseconds.
abbrev pub default_reconnect_delays : List ℕ
default_reconnect_delays = 1000 ∷ 2000 ∷ 5000 ∷ 10000 ∷ 30000 ∷ 60000 ∷ []

pub data ReconnectWaitResult : Type 0 where
  ready cancelled not_scheduled : ReconnectWaitResult

-- What the injected waiter did.
pub data WaiterOutcome : Type 0 where
  returned : Bool → WaiterOutcome
  threw : WaiterOutcome

pub record ReconnectController : Type 0 where
  pub maximum_attempts : ℕ
  pub attempt_count : ℕ
  pub next_delay : Option ℕ
  pub wait_stop_source : ℕ
  pub wait_generation : ℕ
  -- the stop state of each source, by its index
  pub stop_states : List Bool

unfoldable pub validate_reconnect_policy : ℕ → Result (Unit {0})
validate_reconnect_policy maximum =
    if maximum == 0 || ltb maximum_recovery_attempts_limit maximum
    then failure (record out_of_range { details = range_details })
    else success tt
  where
    out_of_range : Error
    out_of_range =
        make_error "CAMERA_CONFIG_FAILED" error "camera" "camera.validateReconnectPolicy" false

    range_details : List ErrorDetail
    range_details =
        detail "parameter" (text "maximumAttempts")
        ∷ detail "reason" (text "out-of-range")
        ∷ detail "minimum" (text "1")
        ∷ detail "maximum" (number maximum_recovery_attempts_limit)
        ∷ []

-- The constructor; `none` where it throws.
unfoldable pub new_controller : ℕ → Option ReconnectController
unfolding validate_reconnect_policy
new_controller maximum = elim (validate_reconnect_policy maximum) [
  | failure _ ↦ none
  | success _ ↦ some (record {
    maximum_attempts = maximum;
    attempt_count = 0;
    next_delay = none;
    wait_stop_source = 0;
    wait_generation = 0;
    stop_states = false ∷ [];
  })
]

abbrev pub request_source_stop : ℕ → List Bool → List Bool
request_source_stop source states = set states source true

abbrev pub is_stopped : ReconnectController → ℕ → Bool
is_stopped r source = get_or r.stop_states source false

abbrev pub delay_of_attempt : ℕ → ℕ
delay_of_attempt attempt =
    get_or default_reconnect_delays (min (attempt - 1) (length default_reconnect_delays - 1)) 0

unfoldable pub schedule_next : ReconnectController → ReconnectController × Option ℕ
schedule_next r = elim r.next_delay [
  | some delay ↦ (r, some delay)
  | none ↦
      if leb r.maximum_attempts r.attempt_count
      then (record r { next_delay = none }, none)
      else (armed, some (delay_of_attempt (r.attempt_count + 1)))
]
  where
    armed : ReconnectController
    armed = record r {
      attempt_count = r.attempt_count + 1;
      next_delay = some (delay_of_attempt (r.attempt_count + 1));
      stop_states = request_source_stop r.wait_stop_source r.stop_states ++ (false ∷ []);
      wait_stop_source = length r.stop_states;
      wait_generation = inc_u64 r.wait_generation;
    }

-- What `wait_for_scheduled` copies under the lock before it waits.
pub record WaitTicket : Type 0 where
  pub delay : ℕ
  pub source : ℕ
  pub generation : ℕ

-- `none` is the early return `not_scheduled`.
unfoldable pub begin_wait : ReconnectController → Option WaitTicket
begin_wait r = elim r.next_delay [
  | none ↦ none
  | some d ↦
      some (record { delay = d; source = r.wait_stop_source; generation = r.wait_generation })
]

-- The external token stops the source of the wait.
unfoldable pub external_stop : WaitTicket → ReconnectController → ReconnectController
external_stop t r = record r { stop_states = request_source_stop t.source r.stop_states }

abbrev pub has_elapsed : WaiterOutcome → Bool
has_elapsed (returned b) = b
has_elapsed threw = false

abbrev pub is_none {ℓ} : {A : Type ℓ} → Option A → Bool
is_none none = true
is_none (some _) = false

unfoldable pub finish_wait :
    ReconnectController → WaitTicket → WaiterOutcome → ReconnectController × ReconnectWaitResult
finish_wait r t outcome =
    if not (t.generation == r.wait_generation)
      || is_none r.next_delay
      || is_stopped r t.source
      || not (has_elapsed outcome)
    then (r, cancelled)
    else (record r { next_delay = none }, ready)

unfoldable pub cancel : ReconnectController → ReconnectController
cancel r = record r {
  stop_states = request_source_stop r.wait_stop_source r.stop_states;
  next_delay = none;
  wait_generation = inc_u64 r.wait_generation;
}

unfoldable pub reset : ReconnectController → ReconnectController
reset r = record r {
  stop_states = request_source_stop r.wait_stop_source r.stop_states ++ (false ∷ []);
  wait_stop_source = length r.stop_states;
  attempt_count = 0;
  next_delay = none;
  wait_generation = inc_u64 r.wait_generation;
}

unfoldable pub exhausted : ReconnectController → Bool
exhausted r = leb r.maximum_attempts r.attempt_count

-- The calls that change a controller, in any order.
pub data ReconnectStep : Type 0 where
  schedules cancels resets : ReconnectStep
  stops : WaitTicket → ReconnectStep
  finishes : WaitTicket → WaiterOutcome → ReconnectStep

pub step : ReconnectController → ReconnectStep → ReconnectController
unfolding schedule_next cancel reset external_stop finish_wait
step r schedules = (schedule_next r).0
step r cancels = cancel r
step r resets = reset r
step r (stops t) = external_stop t r
step r (finishes t outcome) = (finish_wait r t outcome).0

pub run : ReconnectController → List ReconnectStep → ReconnectController
run r [] = r
run r (s ∷ ss) = run (step r s) ss
