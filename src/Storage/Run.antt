-- ===== src/Storage/Run.antt =====
-- src/storage/src/storage_policy.cpp, `run_maintenance`: deletions that were left over, then events by
-- pressure or age, then temporary files, each within the limits of the options.
use paper_breakage_analysis.Base.{
  ℕ, zero, suc, ◌+◌, ◌-◌, ◌*◌, Bool, true, false, not, ◌&&◌, ◌||◌, Option, none, some, List, [],
  ◌∷◌, ◌++◌, String, Result, Error, success, failure, length, ltb, leb, ◌==◌, if◌then◌else◌, str_eq,
  inc_u64, sub_u64,
}
use paper_breakage_analysis.Base.Integers.{ℤ, pos, ltb_ℤ, ◌-ℤ◌}
use paper_breakage_analysis.Time.Points.{scale}
use paper_breakage_analysis.Storage.Paths.{FilePath, EventRetentionRecord, deleting_name}
use paper_breakage_analysis.Storage.Policy.{
  StorageSystem, StoragePolicySnapshot, Manager, config_error, refresh_snapshot, is_normal,
}
use paper_breakage_analysis.Storage.Maintenance.{
  Run, MaintenanceReport, MaintenanceFailure, add_failures, failure_of, try_deletion,
  delete_claimed,
}
pub mod Walk
pub mod Safety

module _ (S : StorageSystem) where
  unfoldable pub recover_one : EventRetentionRecord → ℤ → Run S → Run S × Result Bool
  recover_one e now r =
      if str_eq e.deletion_state "DeleteFailed"
      then delete_claimed S true e now r
          (S.begin_deletion e.event_id e.deletion_relative_path now r.world)
      else (try_deletion S true e now r, success true)

  -- A step that failed ends the run.
  abbrev pub go_on {ℓ κ} :
      {A : Type ℓ} {B : Type κ}
      → Run S × Result A
      → (A → Run S → Run S × Result B)
      → Run S × Result B
  go_on (r, success a) next = next a r
  go_on (r, failure e) next = (r, failure e)

  abbrev pub counted : Bool → ℕ → ℕ
  counted true n = n + 1
  counted false n = n

  -- With the number of deletions that were tried.
  unfoldable pub recover_all : List EventRetentionRecord → ℤ → ℕ → Run S → Run S × Result ℕ
  unfolding recover_one
  recover_all [] now n r = (r, success n)
  recover_all (e ∷ es) now n r =
      go_on (recover_one e now r) (λ tried. recover_all es now (counted tried n))

  unfoldable pub refresh : Run S → Run S × Result (Unit {0})
  refresh r =
      let refreshed = refresh_snapshot S r.manager r.world in
      (record r { manager = refreshed.0 }, refreshed.1)

  abbrev pub exceeds : ℕ → Option ℕ → Bool
  exceeds bytes none = false
  exceeds bytes (some maximum) = ltb maximum bytes

  abbrev pub capacity_pressure : Manager → Bool
  capacity_pressure m = exceeds m.snapshot.retained_event_bytes m.options.maximum_event_bytes

  abbrev pub watermark_pressure : Manager → Bool
  watermark_pressure m = not (is_normal m.snapshot.watermark)

  abbrev pub is_expired : Option ℤ → ℤ → Bool
  is_expired none time = false
  is_expired (some cutoff) time = not (ltb_ℤ cutoff time)

  abbrev pub staged : EventRetentionRecord → EventRetentionRecord
  staged e = record e {
    deletion_relative_path = record {
      is_absolute = false;
      components = ".deletions" ∷ deleting_name e.event_id ∷ [];
    };
  }

  -- After a deletion that was tried the figures are taken anew.
  abbrev pub refresh_if : Bool → Run S → Run S × Result (Unit {0})
  refresh_if true r = refresh r
  refresh_if false r = (r, success tt)

  unfoldable pub delete_candidates :
      Option ℤ → ℤ → List EventRetentionRecord → Run S → Run S × Result (Unit {0})
  unfolding refresh
  delete_candidates cutoff now [] r = (r, success tt)
  delete_candidates cutoff now (e ∷ es) r =
      let event = staged e in
      let claimed = S.begin_deletion event.event_id event.deletion_relative_path now r.world in
      let tried = delete_claimed S false event now r claimed in
      let rest = go_on (go_on tried refresh_if) (λ u. delete_candidates cutoff now es) in
      if not (watermark_pressure r.manager)
        && not (capacity_pressure r.manager)
        && not (is_expired cutoff e.candidate_time_utc_ms)
      then (r, success tt)
      else rest

  abbrev pub is_there : Option ℤ → Bool
  is_there none = false
  is_there (some c) = true

  -- Under pressure the oldest events go, whatever their age.
  unfoldable pub delete_by_pressure : Option ℤ → ℤ → ℕ → Run S → Run S × Result (Unit {0})
  unfolding delete_candidates
  delete_by_pressure cutoff now tried r =
      let slots = sub_u64 r.manager.options.maximum_deletions_per_run tried in
      let pressed = watermark_pressure r.manager || capacity_pressure r.manager in
      let query = if pressed then none else cutoff in
      if ltb 0 slots && (pressed || is_there cutoff)
      then go_on (r, S.retention_candidates query slots r.world)
          (λ candidates. delete_candidates cutoff now candidates)
      else (r, success tt)

  abbrev pub count_temporary_failure : Run S → String → FilePath → Error → Run S
  count_temporary_failure r id path e =
      add_failures S
        (record r {
          manager = record r.manager {
            snapshot = record r.manager.snapshot {
              temporary_delete_failures = inc_u64 r.manager.snapshot.temporary_delete_failures;
            };
          };
        })
        (failure_of S id (some path) e ∷ [])

  abbrev pub count_temporary : Run S → Run S
  count_temporary r = record r {
    manager = record r.manager {
      snapshot = record r.manager.snapshot {
        temporary_entries_deleted = inc_u64 r.manager.snapshot.temporary_entries_deleted;
      };
    };
    report = record r.report { temporary_entries_deleted = r.report.temporary_entries_deleted + 1 };
  }

  unfoldable pub after_removal : FilePath → Run S → S.World × Result (Unit {0}) → Run S
  after_removal path r (w, success u) = count_temporary (record r { world = w })
  after_removal path r (w, failure e) = count_temporary_failure (record r { world = w }) "" path e

  -- With what is left of the budget.
  unfoldable pub remove_entries : List FilePath → ℕ → Run S → Run S × ℕ
  unfolding after_removal
  remove_entries [] budget r = (r, budget)
  remove_entries (p ∷ ps) budget r =
      let removed = after_removal p r (S.remove_tree p r.world) in
      let rest = remove_entries ps (budget - 1) removed in
      if budget - 1 == 0 then (removed, 0) else rest

  unfoldable pub listed_entries : FilePath → ℕ → Run S → Result (List FilePath) → Run S × ℕ
  unfolding remove_entries
  listed_entries root budget r (failure e) = (count_temporary_failure r "" root e, budget)
  listed_entries root budget r (success entries) = remove_entries entries budget r

  unfoldable pub clean_roots : ℤ → List FilePath → ℕ → Run S → Run S
  unfolding listed_entries
  clean_roots cutoff [] budget r = r
  clean_roots cutoff (root ∷ roots) budget r =
      let entries = S.expired_temporary_entries root cutoff budget r.world in
      let cleaned = listed_entries root budget r entries in
      let rest = clean_roots cutoff roots cleaned.1 cleaned.0 in if budget == 0 then r else rest

  abbrev pub empty_report : MaintenanceReport
  empty_report = record {
    deletion_work_recovered = 0;
    events_deleted = 0;
    temporary_entries_deleted = 0;
    failures = [];
  }

  abbrev pub begun : Manager → S.World → Run S
  begun m w = record {
    manager = record m {
      snapshot = record m.snapshot { maintenance_runs = inc_u64 m.snapshot.maintenance_runs };
    };
    world = w;
    report = empty_report;
  }

  abbrev pub retention_cutoff : Option ℤ → ℤ → Option ℤ
  retention_cutoff none now = none
  retention_cutoff (some days) now = some (now -ℤ scale days 86400000)

  -- The temporary files, and the figures at the end.
  unfoldable pub clean_up : ℤ → Run S → Run S × Result (Unit {0})
  unfolding clean_roots refresh
  clean_up now r =
      let o = r.manager.options in
      refresh (
        clean_roots (now -ℤ scale o.temporary_maximum_age 3600000) o.temporary_roots
          o.maximum_temporary_entries_per_run r)

  -- The stages after the deletions that were left over.
  unfoldable pub after_recovery : ℤ → ℕ → Run S → Run S × Result (Unit {0})
  unfolding delete_by_pressure clean_up refresh
  after_recovery now tried r = go_on (refresh r) (λ u r'.
      go_on
        (delete_by_pressure (retention_cutoff r'.manager.options.retention_age now) now tried r')
        (λ v. clean_up now))

  abbrev pub reported : Run S → Result (MaintenanceReport × StoragePolicySnapshot)
  reported r = success (r.report, r.manager.snapshot)

  unfoldable pub run_maintenance :
      Manager → ℤ → S.World → Run S × Result (MaintenanceReport × StoragePolicySnapshot)
  unfolding recover_all after_recovery
  run_maintenance m now w =
      let r = begun m w in
      let idle : Run S = record { manager = m; world = w; report = empty_report } in
      if ltb_ℤ now (pos 0)
      then (idle, failure (config_error "storage.maintenance.validate"))
      else go_on (r, S.deletion_work m.options.maximum_deletions_per_run w)
          (λ work r0.
            go_on (recover_all work now 0 r0)
              (λ tried r1. go_on (after_recovery now tried r1) (λ u r2. (r2, reported r2))))
