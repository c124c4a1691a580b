-- ===== src/Storage/Admission.antt =====
-- src/storage/src/storage_policy.cpp: what the manager admits, and the limits that can be changed.
use paper_breakage_analysis.Base.{
  ℕ, true, not, ◌||◌, Option, some, [], ◌∷◌, Result, success, failure, make_error, critical, detail,
  number, if◌then◌else◌,
}
use paper_breakage_analysis.Base.Integers.{ℤ, pos, ltb_ℤ}
use paper_breakage_analysis.Storage.Policy.{
  StorageWatermarkThresholds, Manager, StorageSystem, config_error, refresh_snapshot,
  is_bad_watermarks, is_some_zero,
}

-- `admit_large_write`
unfoldable pub admit_large_write : Manager → Result (Unit {0})
admit_large_write m =
    if m.snapshot.large_writes_allowed
    then success tt
    else failure
        (record (make_error "STORAGE_LOW_SPACE" critical "storage" "storage.admission.large-write"
          true) {
            details =
                detail "availableBytes" (number m.snapshot.available_bytes)
                ∷ detail "stopSaveBytes" (number m.options.watermarks.stop_save_available_bytes)
                ∷ [];
          })

unfoldable pub set_retention_age : Manager → ℤ → Manager × Result (Unit {0})
set_retention_age m age =
    if not (ltb_ℤ (pos 0) age)
    then (m, failure (config_error "storage.policy.retention.configure"))
    else (record m { options = record m.options { retention_age = some age } }, success tt)

-- New limits hold only if the snapshot can be refreshed with them.
unfoldable pub keep_if_refreshed :
    Manager → Manager × Result (Unit {0}) → Manager × Result (Unit {0})
keep_if_refreshed before (after, success u) = (after, success u)
keep_if_refreshed before (after, failure e) = (
  record after {
    options = record after.options {
      watermarks = before.options.watermarks;
      maximum_event_bytes = before.options.maximum_event_bytes;
    };
  },
  failure e,
)

unfoldable pub with_limits : Manager → StorageWatermarkThresholds → Option ℕ → Manager
with_limits m watermarks maximum = record m {
  options = record m.options { watermarks = watermarks; maximum_event_bytes = maximum };
}

module _ (S : StorageSystem) where
  unfoldable pub reconfigure_limits :
      Manager → StorageWatermarkThresholds → Option ℕ → S.World → Manager × Result (Unit {0})
  unfolding keep_if_refreshed with_limits
  reconfigure_limits m watermarks maximum w =
      if is_bad_watermarks watermarks || is_some_zero maximum
      then (m, failure (config_error "storage.policy.limits.configure"))
      else keep_if_refreshed m (refresh_snapshot S (with_limits m watermarks maximum) w)
