-- ===== src/Uplink/Scheduler/Decision.antt =====
-- src/uplink/src/upload_scheduler.cpp: what the worker makes of an attempt, and its loop. `stop` is what
-- `stop_requested` answers at each of its reads.
use paper_breakage_analysis.Base.{
  ℕ, Bool, true, false, ◌&&◌, ◌||◌, Option, none, some, List, [], ◌∷◌, String, Result, success,
  failure, ltb, leb, if◌then◌else◌, is_empty, str_eq, inc_u64, add_u64,
}
use paper_breakage_analysis.Base.Integers.{ℤ, pos, ◌+ℤ◌}
use paper_breakage_analysis.Uplink.Retry.{upload_retry_delay}
use paper_breakage_analysis.Uplink.Scheduler.{
  UploadAttemptDisposition, UploadFailureClass, UploadAttemptOutcome, UploadJobRecord,
  SchedulerConfig, SchedulerMetrics, UploadDatabase, Scheduler, record_repository_failure, finish,
}

-- How a failure is recorded: its class, when it is tried again, and its code.
pub record FailureDecision : Type 0 where
  pub failure_class : UploadFailureClass
  pub next_attempt : Option ℤ
  pub error_code : String

abbrev pub is_retryable : UploadAttemptDisposition → Bool
is_retryable UploadAttemptDisposition.retryable_failure = true
is_retryable _ = false

abbrev pub is_permanent : UploadAttemptDisposition → Bool
is_permanent UploadAttemptDisposition.permanent_failure = true
is_permanent _ = false

-- A stop that is seen makes the delay zero.
unfoldable pub decide_failure :
    SchedulerConfig
    → UploadAttemptDisposition
    → ℕ
    → String
    → ℤ
    → Bool
    → Bool
    → (ℕ → ℕ)
    → FailureDecision
decide_failure c disposition attempts code now stop stop_later jitter =
    let delay =
      if stop_later
      then 0
      else upload_retry_delay c.initial_retry_delay c.maximum_retry_delay attempts jitter in
    let named = if is_empty code then "UPLOAD_TRANSFER_FAILED" else code in
    if is_retryable disposition && (ltb attempts c.maximum_attempts || stop)
    then record {
      failure_class = UploadFailureClass.retryable;
      next_attempt = some (now +ℤ pos delay);
      error_code = named;
    }
    else if is_permanent disposition
    then record {
      failure_class = UploadFailureClass.permanent;
      next_attempt = none;
      error_code = named;
    }
    else record {
      failure_class = UploadFailureClass.manual;
      next_attempt = none;
      error_code =
          if is_retryable disposition && leb c.maximum_attempts attempts
          then "UPLOAD_RETRY_EXHAUSTED"
          else named;
    }

unfoldable pub count_failure : UploadFailureClass → SchedulerMetrics → SchedulerMetrics
count_failure UploadFailureClass.retryable m = record m {
  retryable_failures = inc_u64 m.retryable_failures;
}
count_failure UploadFailureClass.permanent m = record m {
  permanent_failures = inc_u64 m.permanent_failures;
}
count_failure UploadFailureClass.manual m = record m {
  manual_interventions = inc_u64 m.manual_interventions;
}

module _ (D : UploadDatabase) where
  -- The metrics and the world, which every step changes.
  abbrev pub Ledger : Type 0
  Ledger = SchedulerMetrics × D.World

  unfoldable pub note_recovery : SchedulerMetrics → D.World × Result ℕ → Ledger
  note_recovery m (w, success n) = (m, w)
  note_recovery m (w, failure e) = (record_repository_failure e m, w)

  -- Where the database refused, the jobs are recovered.
  unfoldable pub settle_persisted : SchedulerMetrics → ℤ → D.World × Result (Unit {0}) → Ledger
  unfolding note_recovery
  settle_persisted m now (w, success u) = (m, w)
  settle_persisted m now (w, failure e) =
      note_recovery (record_repository_failure e m) (D.recover_upload_jobs now w)

  unfoldable pub mark_changed :
      Option String → String → ℤ → D.World × Result (Unit {0}) → D.World × Result (Unit {0})
  mark_changed none code now (w, r) = (w, r)
  mark_changed (some event) code now (w, failure e) = (w, failure e)
  mark_changed (some event) code now (w, success u) =
      if str_eq code "UPLOAD_SOURCE_CHANGED"
      then D.mark_event_integrity_failed event code now w
      else (w, success u)

  unfoldable pub settle_completed : SchedulerMetrics → ℤ → D.World × Result (Unit {0}) → Ledger
  unfolding settle_persisted
  settle_completed m now (w, success u) =
      (record m { completed_jobs = inc_u64 m.completed_jobs }, w)
  settle_completed m now (w, failure e) = settle_persisted m now (w, failure e)

  unfoldable pub persist_failure :
      UploadJobRecord → FailureDecision → String → ℤ → SchedulerMetrics → D.World → Ledger
  unfolding count_failure settle_persisted mark_changed
  persist_failure job d checkpoint now m w =
      settle_persisted (count_failure d.failure_class m) now (
        mark_changed job.event_id d.error_code now (
          D.fail_upload_job job.job_id d.failure_class d.error_code checkpoint d.next_attempt now
            w))

  abbrev pub is_success : UploadAttemptDisposition → Bool
  is_success UploadAttemptDisposition.succeeded = true
  is_success _ = false

  unfoldable pub persist_outcome :
      SchedulerConfig
      → UploadJobRecord
      → UploadAttemptOutcome
      → ℤ
      → Bool
      → Bool
      → (ℕ → ℕ)
      → SchedulerMetrics
      → D.World
      → Ledger
  unfolding settle_completed persist_failure decide_failure
  persist_outcome c job o now stop stop_later jitter m w =
      if is_success o.disposition
      then settle_completed m now (D.complete_upload_job job.job_id o.checkpoint_json now w)
      else persist_failure job
          (decide_failure c o.disposition job.attempts o.error_code now stop stop_later jitter)
          o.checkpoint_json now m w

  -- What comes from outside in a round: the times of the claim and of the record, the answer of the
  -- executor, none where it throws, the reads of the stop, and the jitter.
  pub record Round : Type 0 where
    pub claim_time : ℤ
    pub record_time : ℤ
    pub answer : Option UploadAttemptOutcome
    pub stop_on_throw : Bool
    pub stop : Bool
    pub stop_later : Bool
    pub jitter : ℕ → ℕ

  unfoldable pub answered :
      UploadJobRecord → Bool → Option UploadAttemptOutcome → UploadAttemptOutcome
  answered job stop (some o) = o
  answered job true none = record {
    disposition = UploadAttemptDisposition.retryable_failure;
    checkpoint_json = job.checkpoint_json;
    error_code = "UPLOAD_TRANSFER_INTERRUPTED";
  }
  answered job false none = record {
    disposition = UploadAttemptDisposition.manual_intervention;
    checkpoint_json = job.checkpoint_json;
    error_code = "SYS_INTERNAL_ERROR";
  }

  unfoldable pub do_claimed :
      SchedulerConfig
      → Round
      → SchedulerMetrics
      → D.World × Result (Option UploadJobRecord)
      → Ledger
  unfolding persist_outcome answered
  do_claimed c r m (w, failure e) = (record_repository_failure e m, w)
  do_claimed c r m (w, success none) = (m, w)
  do_claimed c r m (w, success (some job)) =
      let claimed = record m {
        claimed_jobs = inc_u64 m.claimed_jobs;
        active_job_id = job.job_id;
      } in
      let done =
        persist_outcome c job (answered job r.stop_on_throw r.answer) r.record_time r.stop
          r.stop_later r.jitter claimed w in
      (record done.0 { active_job_id = pos 0 }, done.1)

  unfoldable pub work : SchedulerConfig → List Round → Ledger → Ledger
  unfolding do_claimed
  work c [] (m, w) = (m, w)
  work c (r ∷ rs) (m, w) = work c rs (do_claimed c r m (D.claim_next_upload_job r.claim_time w))

  unfoldable pub first_recovery : SchedulerMetrics → D.World × Result ℕ → Ledger
  first_recovery m (w, success n) = (record m { recovered_jobs = add_u64 m.recovered_jobs n }, w)
  first_recovery m (w, failure e) = (record_repository_failure e m, w)

  -- The rounds up to the one before which the stop is seen.
  unfoldable pub run : Scheduler → ℤ → List Round → D.World → Scheduler × D.World
  unfolding work first_recovery
  run s now rounds w =
      let done = work s.config rounds (first_recovery s.metrics (D.recover_upload_jobs now w)) in
      (finish (record s { metrics = done.0 }), done.1)
