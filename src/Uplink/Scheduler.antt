-- ===== src/Uplink/Scheduler.antt =====
-- src/uplink/src/upload_scheduler.cpp, `PersistentUploadScheduler`: one worker that claims jobs from the
-- metadata database, has each executed, and records how it ended. The database is an interface over a
-- world; times, the executor's answers and the moments at which a stop is seen come from outside.
use paper_breakage_analysis.Base.{
  ℕ, zero, suc, ◌+◌, ◌-◌, Bool, true, false, not, ◌&&◌, ◌||◌, Option, none, some, List, [], ◌∷◌,
  String, Result, Error, success, failure, make_error, error, ltb, leb, ◌==◌, if◌then◌else◌,
  is_empty, str_eq, inc_u64, add_u64,
}
use paper_breakage_analysis.Base.Integers.{ℤ, pos, ◌+ℤ◌}
use paper_breakage_analysis.Uplink.Retry.{upload_retry_delay}
pub mod Decision
pub mod Attempts

pub data UploadAttemptDisposition : Type 0 where
  succeeded retryable_failure permanent_failure manual_intervention : UploadAttemptDisposition

pub data UploadFailureClass : Type 0 where
  retryable permanent manual : UploadFailureClass

pub record UploadAttemptOutcome : Type 0 where
  pub disposition : UploadAttemptDisposition
  pub checkpoint_json : String
  pub error_code : String

pub record UploadJobRecord : Type 0 where
  pub job_id : ℤ
  pub event_id : Option String
  pub attempts : ℕ
  pub checkpoint_json : String

-- The delays in milliseconds; the jitter ratio, a floating-point number, only as whether it is finite and
-- between 0 and 0.5.
pub record SchedulerConfig : Type 0 where
  pub initial_retry_delay : ℕ
  pub maximum_retry_delay : ℕ
  pub idle_poll_interval : ℕ
  pub jitter_ratio_fits : Bool
  pub maximum_attempts : ℕ

abbrev pub maximum_upload_attempts : ℕ
maximum_upload_attempts = 100

unfoldable pub valid_config : SchedulerConfig → Bool
valid_config c =
    ltb 0 c.initial_retry_delay
    && leb c.initial_retry_delay c.maximum_retry_delay
    && leb c.maximum_retry_delay 86400000
    && ltb 0 c.idle_poll_interval
    && leb c.idle_poll_interval 60000
    && c.jitter_ratio_fits
    && ltb 0 c.maximum_attempts
    && leb c.maximum_attempts maximum_upload_attempts

pub data SchedulerState : Type 0 where
  stopped running stop_requested : SchedulerState

unfoldable pub state_name : SchedulerState → String
state_name SchedulerState.stopped = "Stopped"
state_name SchedulerState.running = "Running"
state_name SchedulerState.stop_requested = "StopRequested"

pub record SchedulerMetrics : Type 0 where
  pub state : SchedulerState
  pub recovered_jobs : ℕ
  pub claimed_jobs : ℕ
  pub completed_jobs : ℕ
  pub retryable_failures : ℕ
  pub permanent_failures : ℕ
  pub manual_interventions : ℕ
  pub repository_failures : ℕ
  pub last_error_code : String
  pub active_job_id : ℤ

pub record UploadDatabase : Type 1 where
  pub World : Type 0
  pub complete_upload_job : ℤ → String → ℤ → World → World × Result (Unit {0})
  pub fail_upload_job :
      ℤ → UploadFailureClass → String → String → Option ℤ → ℤ → World → World × Result (Unit {0})
  pub mark_event_integrity_failed : String → String → ℤ → World → World × Result (Unit {0})
  pub recover_upload_jobs : ℤ → World → World × Result ℕ
  pub claim_next_upload_job : ℤ → World → World × Result (Option UploadJobRecord)

pub record Scheduler : Type 0 where
  pub config : SchedulerConfig
  pub metrics : SchedulerMetrics
  pub started : Bool
  pub finished : Bool
  pub stop_source : Bool
  pub joinable : Bool

abbrev pub scheduler_error : String → String → Bool → Error
scheduler_error code operation again = make_error code error "uplink" operation again

abbrev pub idle_metrics : SchedulerMetrics
idle_metrics = record {
  state = SchedulerState.stopped;
  recovered_jobs = 0;
  claimed_jobs = 0;
  completed_jobs = 0;
  retryable_failures = 0;
  permanent_failures = 0;
  manual_interventions = 0;
  repository_failures = 0;
  last_error_code = "";
  active_job_id = pos 0;
}

-- The database and the executor are there.
unfoldable pub create : SchedulerConfig → Result Scheduler
create c =
    if not (valid_config c)
    then failure (scheduler_error "SYS_CONFIG_INVALID" "upload.scheduler.create" false)
    else success (record {
      config = c;
      metrics = idle_metrics;
      started = false;
      finished = true;
      stop_source = false;
      joinable = false;
    })

abbrev pub in_state : Scheduler → SchedulerState → Scheduler
in_state s state = record s { metrics = record s.metrics { state = state } }

-- With whether the thread can be created.
unfoldable pub start : Scheduler → Bool → Scheduler × Result (Unit {0})
start s thread =
    if s.started
    then (s, failure (scheduler_error "SYS_INVALID_STATE" "upload.scheduler.start" false))
    else if thread
    then (
      record (in_state s SchedulerState.running) {
        started = true;
        finished = false;
        joinable = true;
      },
      success tt,
    )
    else (
      record (in_state s SchedulerState.stopped) { started = false; finished = true },
      failure (scheduler_error "SYS_INTERNAL_ERROR" "upload.scheduler.start" false),
    )

unfoldable pub request_stop : Scheduler → Scheduler
request_stop s =
    if not s.started || s.finished
    then s
    else record (in_state s SchedulerState.stop_requested) { stop_source = true }

-- On the scheduler as it is when the wait for its end is over.
unfoldable pub join : Scheduler → Scheduler × Result (Unit {0})
join s =
    if not s.started
    then (s, success tt)
    else if not s.finished
    then (s, failure (scheduler_error "SYS_SHUTDOWN_TIMEOUT" "upload.scheduler.join" true))
    else (record s { joinable = false }, success tt)

-- The end of the worker.
unfoldable pub finish : Scheduler → Scheduler
finish s = record s {
  metrics = record s.metrics { active_job_id = pos 0; state = SchedulerState.stopped };
  finished = true;
}

abbrev pub record_repository_failure : Error → SchedulerMetrics → SchedulerMetrics
record_repository_failure e m = record m {
  repository_failures = inc_u64 m.repository_failures;
  last_error_code = e.business_code;
}
