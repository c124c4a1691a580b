-- ===== src/Uplink/Scheduler/Attempts.antt =====
-- Retries and counters of src/uplink/src/upload_scheduler.cpp.
use paper_breakage_analysis.Base.{
  ℕ, ◌+◌, ◌≤◌, ◌<◌, ◌≡◌, ◌≢◌, ◌⊎◌, Bool, true, false, Option, none, some, List, [], ◌∷◌, Result,
  success, failure, if-holds, inc_u64, arith, length, u64_mod,
}
use paper_breakage_analysis.Base.Integers.{ℤ, pos, ◌+ℤ◌, ◌≤ℤ◌}
use paper_breakage_analysis.Uplink.Scheduler.{
  UploadAttemptDisposition, UploadFailureClass, UploadAttemptOutcome, UploadJobRecord,
  SchedulerConfig, SchedulerMetrics, UploadDatabase, Scheduler, record_repository_failure, finish,
  create, start,
}
use paper_breakage_analysis.Uplink.Scheduler.Decision.{
  FailureDecision, count_failure, note_recovery, settle_persisted, settle_completed,
  persist_failure, persist_outcome, Round, answered, do_claimed, work, first_recovery, run,
  is_retryable, is_success, Ledger,
}

-- Another attempt: the executor called the failure retryable, and the job has attempts left or a stop was
-- seen; the attempt comes within the delays, or a stop brings it forward.
abbrev pub IsRetried :
    SchedulerConfig → UploadAttemptDisposition → ℕ → ℤ → Bool → Bool → FailureDecision → Type 0
IsRetried c disposition attempts now stop stop_later d =
    (d.failure_class ≡ UploadFailureClass.retryable)
    × (is_retryable disposition ≡ true)
    × ((attempts < c.maximum_attempts) ⊎ (stop ≡ true))
    × ((t : ℤ) × (d.next_attempt ≡ some t)
        × (((stop_later ≡ true) × (t ≡ now +ℤ pos 0))
            ⊎ ((now +ℤ pos 1 ≤ℤ t) × (t ≤ℤ now +ℤ pos c.maximum_retry_delay))))

-- No other attempt: the failure is not retryable, or the attempts are used up and no stop was seen.
abbrev pub IsFinal :
    SchedulerConfig → UploadAttemptDisposition → ℕ → Bool → FailureDecision → Type 0
IsFinal c disposition attempts stop d =
    (d.failure_class ≢ UploadFailureClass.retryable)
    × (d.next_attempt ≡ none)
    × ((is_retryable disposition ≡ false) ⊎ ((c.maximum_attempts ≤ attempts) × (stop ≡ false)))

-- The jobs that ended in one way or another.
abbrev pub ended_jobs : SchedulerMetrics → ℕ
ended_jobs m =
    m.completed_jobs + m.retryable_failures + m.permanent_failures + m.manual_interventions

-- No more jobs ended than were claimed, and no more claimed than there were rounds.
abbrev Accounts : ℕ → SchedulerMetrics → Type 0
Accounts n m = (ended_jobs m ≤ m.claimed_jobs) × (m.claimed_jobs ≤ n)

-- One more job may end than the ledger says.
abbrev Owes : ℕ → SchedulerMetrics → Type 0
Owes n m = (ended_jobs m + 1 ≤ m.claimed_jobs) × (m.claimed_jobs ≤ n)

settle_persisted-Accounts :
    (D : UploadDatabase) (n : ℕ) (m : SchedulerMetrics) (now : ℤ) (x : D.World × Result (Unit {0}))
    → Accounts n m
    → Accounts n (settle_persisted D m now x).0
unfolding settle_persisted
settle_persisted-Accounts D n m now (w, success u) a = a
settle_persisted-Accounts D n m now (w, failure e) a = recovered (D.recover_upload_jobs now w)
  where
    recovered :
        (y : D.World × Result ℕ) → Accounts n (note_recovery D (record_repository_failure e m) y).0
    recovered (v, success k) = a
    recovered (v, failure x) = a

count_failure-Accounts :
    (n : ℕ) (k : UploadFailureClass) (m : SchedulerMetrics)
    → n < u64_mod
    → Owes n m
    → Accounts n (count_failure k m)
unfolding count_failure
count_failure-Accounts n UploadFailureClass.retryable m h o = (omega arith, o.1)
count_failure-Accounts n UploadFailureClass.permanent m h o = (omega arith, o.1)
count_failure-Accounts n UploadFailureClass.manual m h o = (omega arith, o.1)

settle_completed-Accounts :
    (D : UploadDatabase) (n : ℕ) (m : SchedulerMetrics) (now : ℤ) (x : D.World × Result (Unit {0}))
    → n < u64_mod
    → Owes n m
    → Accounts n (settle_completed D m now x).0
unfolding settle_completed
settle_completed-Accounts D n m now (w, success u) h o = (omega arith, o.1)
settle_completed-Accounts D n m now (w, failure e) h o =
    settle_persisted-Accounts D n m now (w, failure e) (omega arith, o.1)

-- A scheduler that was just started has counted nothing.
started_metrics :
    (c : SchedulerConfig) (s : Scheduler)
    → create c ≡ success s
    → Accounts 0 (start s true).0.metrics
unfolding create start
started_metrics c s e = ground arith

module _ (D : UploadDatabase) where
  persist_outcome-Accounts :
      (n : ℕ) (c : SchedulerConfig) (job : UploadJobRecord) (o : UploadAttemptOutcome) (r : Round D)
      (m : SchedulerMetrics) (w : D.World)
      → n < u64_mod
      → Owes n m
      → Accounts n (persist_outcome D c job o r.record_time r.stop r.stop_later r.jitter m w).0
  unfolding persist_outcome persist_failure
  persist_outcome-Accounts n c job o r m w h p =
      if-holds P (is_success D o.disposition)
        (λ e. settle_completed-Accounts D n m r.record_time _ h p)
        (λ e. settle_persisted-Accounts D n _ r.record_time _ (count_failure-Accounts n _ m h p))
    where
      P : Ledger D → Type 0
      P x = Accounts n x.0

  do_claimed-Accounts :
      (n : ℕ) (c : SchedulerConfig) (r : Round D) (m : SchedulerMetrics)
      (x : D.World × Result (Option UploadJobRecord))
      → n + 1 < u64_mod
      → Accounts n m
      → Accounts (n + 1) (do_claimed D c r m x).0
  unfolding do_claimed
  do_claimed-Accounts n c r m (w, failure e) h a = (a.0, omega (arith, a.1))
  do_claimed-Accounts n c r m (w, success none) h a = (a.0, omega (arith, a.1))
  do_claimed-Accounts n c r m (w, success (some job)) h a =
      let claimed : SchedulerMetrics = record m {
        claimed_jobs = inc_u64 m.claimed_jobs;
        active_job_id = job.job_id;
      } in
      let owes : Owes (n + 1) claimed = (omega (arith, a), omega (arith, a)) in
      persist_outcome-Accounts (n + 1) c job (answered D job r.stop_on_throw r.answer) r claimed w h
        owes

  work-Accounts :
      (n : ℕ) (c : SchedulerConfig) (rs : List (Round D)) (l : Ledger D)
      → n + length rs < u64_mod
      → Accounts n l.0
      → Accounts (n + length rs) (work D c rs l).0
  unfolding work
  work-Accounts n c [] (m, w) h a = (a.0, omega (arith, a.1))
  work-Accounts n c (r ∷ rs) (m, w) h a =
      let next = D.claim_next_upload_job r.claim_time w in
      let step = do_claimed-Accounts n c r m next (omega arith) a in
      let rest = work-Accounts (n + 1) c rs (do_claimed D c r m next) (omega arith) step in
      (rest.0, omega (arith, rest.1))

  first_recovery-Accounts :
      (m : SchedulerMetrics) (x : D.World × Result ℕ)
      → Accounts 0 m
      → Accounts 0 (first_recovery D m x).0
  unfolding first_recovery
  first_recovery-Accounts m (w, success n) a = a
  first_recovery-Accounts m (w, failure e) a = a

  -- From a scheduler that was created and then started: whatever the database and the executor answer in
  -- fewer than 2^64 rounds of its worker, the jobs that it counts as completed, failed for now, failed
  -- for good or left to an operator are together no more than those that it claimed, so no job is
  -- counted twice, and it claimed no more jobs than there were rounds.
  pub run-ended_jobs :
      (c : SchedulerConfig) (s : Scheduler) (now : ℤ) (rounds : List (Round D)) (w : D.World)
      → create c ≡ success s
      → length rounds < u64_mod
      → let after = (run D (start s true).0 now rounds w).0 in
        (ended_jobs after.metrics ≤ after.metrics.claimed_jobs)
        × (after.metrics.claimed_jobs ≤ length rounds)
  unfolding run finish
  run-ended_jobs c s now rounds w e h =
      let x = D.recover_upload_jobs now w in
      let running = (start s true).0 in
      let begun : Accounts 0 (first_recovery D running.metrics x).0 =
        first_recovery-Accounts running.metrics x (started_metrics c s e) in
      let all =
        work-Accounts 0 running.config rounds (first_recovery D running.metrics x) (omega arith)
          begun in
      (all.0, omega (arith, all.1))
