-- ===== src/Uplink/Examples.antt =====
-- A database with one job that is claimed twice, and a configuration with small delays.
use paper_breakage_analysis.Base.{
  ℕ, ◌+◌, ◌-◌, ◌*◌, ◌^◌, ◌≤◌, min, ◌≡◌, refl, true, false, List, [], ◌∷◌, some, none, success,
  arith, length,
}
use paper_breakage_analysis.Base.Integers.{pos}
use paper_breakage_analysis.Uplink.Retry.{retry_base, retry_base_exact}
use paper_breakage_analysis.Uplink.Scheduler.{
  UploadAttemptDisposition, UploadJobRecord, SchedulerConfig, UploadDatabase, Scheduler,
  valid_config, idle_metrics, create, start,
}
use paper_breakage_analysis.Uplink.Scheduler.Decision.{Round, run}
use paper_breakage_analysis.Uplink.Scheduler.Attempts.{run-ended_jobs, ended_jobs}

retry_base_exact_example : retry_base 1000 300000 7 ≡ min (1000 * 2 ^ (7 - 1)) 300000
retry_base_exact_example = retry_base_exact 1000 300000 7 (omega arith) (omega arith)

abbrev small_config : SchedulerConfig
small_config = record {
  initial_retry_delay = 100;
  maximum_retry_delay = 1000;
  idle_poll_interval = 50;
  jitter_ratio_fits = true;
  maximum_attempts = 3;
}

abbrev one_job : UploadJobRecord
one_job = record { job_id = pos 4; event_id = none; attempts = 1; checkpoint_json = "{}" }

abbrev job_database : UploadDatabase
job_database = record {
  World = ℕ;
  complete_upload_job = λ id checkpoint now w. (w + 1, success tt);
  fail_upload_job = λ id k code checkpoint next now w. (w + 1, success tt);
  mark_event_integrity_failed = λ id code now w. (w, success tt);
  recover_upload_jobs = λ now w. (w, success 0);
  claim_next_upload_job = λ now w. (w, success (some one_job));
}

abbrev new_scheduler : Scheduler
new_scheduler = record {
  config = small_config;
  metrics = idle_metrics;
  started = false;
  finished = true;
  stop_source = false;
  joinable = false;
}

new_scheduler_made : create small_config ≡ success new_scheduler
unfolding create valid_config
new_scheduler_made = refl

-- The executor throws in the first round and succeeds in the second.
abbrev throwing_round : Round job_database
throwing_round = record {
  claim_time = pos 1;
  record_time = pos 2;
  answer = none;
  stop_on_throw = false;
  stop = false;
  stop_later = false;
  jitter = λ n. n;
}

abbrev rounds : List (Round job_database)
rounds =
    throwing_round
    ∷ record throwing_round {
      answer = some (record {
        disposition = UploadAttemptDisposition.succeeded;
        checkpoint_json = "{}";
        error_code = "";
      });
    }
    ∷ []

run-ended_jobs_example :
    let after = (run job_database (start new_scheduler true).0 (pos 0) rounds 0).0 in
    (ended_jobs after.metrics ≤ after.metrics.claimed_jobs)
    × (after.metrics.claimed_jobs ≤ length rounds)
run-ended_jobs_example =
    run-ended_jobs job_database small_config new_scheduler (pos 0) rounds 0 new_scheduler_made
      (omega arith)
