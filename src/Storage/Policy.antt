-- ===== src/Storage/Policy.antt =====
-- src/storage/src/storage_policy.cpp: watermarks, deletion of whole events, and the bounded run of
-- maintenance. The file system (`IStoragePolicyFileSystem` and the path functions of the standard
-- library) and the metadata database are an interface over a world that they share; a path is the list
-- of its components. Times are whole milliseconds.
use paper_breakage_analysis.Base.{
  ℕ, Bool, true, false, not, ◌||◌, Option, none, some, List, String, Severity, Result, Error,
  success, failure, make_error, error, length, ltb, leb, ◌==◌, if◌then◌else◌,
}
use paper_breakage_analysis.Base.Integers.{ℤ, pos, ltb_ℤ}
use paper_breakage_analysis.Storage.Paths.{FilePath, EventRetentionRecord}

pub data StorageWatermark : Type 0 where
  normal warning_level critical_level stop_save : StorageWatermark

pub record StorageSpace : Type 0 where
  pub capacity_bytes : ℕ
  pub available_bytes : ℕ

pub record StorageWatermarkThresholds : Type 0 where
  pub warning_available_bytes : ℕ
  pub critical_available_bytes : ℕ
  pub stop_save_available_bytes : ℕ

pub record StoragePolicyOptions : Type 0 where
  pub event_root : FilePath
  pub temporary_roots : List FilePath
  pub watermarks : StorageWatermarkThresholds
  -- in days
  pub retention_age : Option ℤ
  pub maximum_event_bytes : Option ℕ
  -- in hours
  pub temporary_maximum_age : ℤ
  pub maximum_deletions_per_run : ℕ
  pub maximum_temporary_entries_per_run : ℕ

pub record StoragePolicySnapshot : Type 0 where
  pub watermark : StorageWatermark
  pub capacity_bytes : ℕ
  pub available_bytes : ℕ
  pub retained_event_bytes : ℕ
  pub ordinary_rolling_writes_allowed : Bool
  pub large_writes_allowed : Bool
  pub maintenance_runs : ℕ
  pub events_deleted : ℕ
  pub event_delete_failures : ℕ
  pub temporary_entries_deleted : ℕ
  pub temporary_delete_failures : ℕ

-- What the manager calls. A call that changes something returns the world after it, also where it fails.
pub record StorageSystem : Type 1 where
  pub World : Type 0
  pub absolute : FilePath → Option FilePath
  pub lexically_relative : FilePath → FilePath → FilePath
  pub space : FilePath → World → Result StorageSpace
  pub is_directory : FilePath → World → Result Bool
  pub create_directories : FilePath → World → World × Result (Unit {0})
  pub move_directory_atomically : FilePath → FilePath → World → World × Result (Unit {0})
  pub remove_tree : FilePath → World → World × Result (Unit {0})
  pub expired_temporary_entries : FilePath → ℤ → ℕ → World → Result (List FilePath)
  pub retained_event_bytes : World → Result ℕ
  pub deletion_work : ℕ → World → Result (List EventRetentionRecord)
  pub retention_candidates : Option ℤ → ℕ → World → Result (List EventRetentionRecord)
  pub begin_deletion : String → FilePath → ℤ → World → World × Result Bool
  pub complete_deletion : String → ℤ → World → World × Result (Unit {0})
  pub fail_deletion : String → Error → ℤ → World → World × Result (Unit {0})

pub record Manager : Type 0 where
  pub options : StoragePolicyOptions
  pub snapshot : StoragePolicySnapshot

abbrev pub policy_error : String → Severity → String → Error
policy_error code severity operation = make_error code severity "storage" operation false

abbrev pub config_error : String → Error
config_error operation = policy_error "SYS_CONFIG_INVALID" error operation

unfoldable pub watermark_name : StorageWatermark → String
watermark_name StorageWatermark.normal = "Normal"
watermark_name StorageWatermark.warning_level = "Warning"
watermark_name StorageWatermark.critical_level = "Critical"
watermark_name StorageWatermark.stop_save = "StopSave"

unfoldable pub classify : ℕ → StorageWatermarkThresholds → StorageWatermark
classify available t =
    if leb available t.stop_save_available_bytes
    then StorageWatermark.stop_save
    else if leb available t.critical_available_bytes
    then StorageWatermark.critical_level
    else if leb available t.warning_available_bytes
    then StorageWatermark.warning_level
    else StorageWatermark.normal

abbrev pub is_normal : StorageWatermark → Bool
is_normal StorageWatermark.normal = true
is_normal _ = false

abbrev pub allows_rolling : StorageWatermark → Bool
allows_rolling StorageWatermark.normal = true
allows_rolling StorageWatermark.warning_level = true
allows_rolling _ = false

abbrev pub allows_large : StorageWatermark → Bool
allows_large StorageWatermark.stop_save = false
allows_large _ = true

-- The snapshot on new figures.
unfoldable pub measured : Manager → StorageSpace → ℕ → Manager
measured m space bytes =
    let level = classify space.available_bytes m.options.watermarks in
    record m {
      snapshot = record m.snapshot {
        capacity_bytes = space.capacity_bytes;
        available_bytes = space.available_bytes;
        retained_event_bytes = bytes;
        watermark = level;
        ordinary_rolling_writes_allowed = allows_rolling level;
        large_writes_allowed = allows_large level;
      };
    }

unfoldable pub refreshed_with :
    Manager → Result StorageSpace → Result ℕ → Manager × Result (Unit {0})
unfolding measured
refreshed_with m (failure e) bytes = (m, failure e)
refreshed_with m (success space) (failure e) = (m, failure e)
refreshed_with m (success space) (success bytes) = (measured m space bytes, success tt)

module _ (S : StorageSystem) where
  unfoldable pub refresh_snapshot : Manager → S.World → Manager × Result (Unit {0})
  unfolding refreshed_with
  refresh_snapshot m w =
      refreshed_with m (S.space m.options.event_root w) (S.retained_event_bytes w)

abbrev pub is_bad_watermarks : StorageWatermarkThresholds → Bool
is_bad_watermarks t =
    leb t.warning_available_bytes t.critical_available_bytes
    || leb t.critical_available_bytes t.stop_save_available_bytes

abbrev pub is_some_zero : Option ℕ → Bool
is_some_zero none = false
is_some_zero (some n) = n == 0

abbrev pub is_not_positive : Option ℤ → Bool
is_not_positive none = false
is_not_positive (some n) = not (ltb_ℤ (pos 0) n)

abbrev pub database_maximum_page_size : ℕ
database_maximum_page_size = 200

unfoldable pub bad_options : StoragePolicyOptions → Bool
bad_options o =
    length o.event_root.components == 0
    || is_bad_watermarks o.watermarks
    || is_not_positive o.retention_age
    || is_some_zero o.maximum_event_bytes
    || not (ltb_ℤ (pos 0) o.temporary_maximum_age)
    || o.maximum_deletions_per_run == 0
    || ltb database_maximum_page_size o.maximum_deletions_per_run
    || ltb 16 (length o.temporary_roots)
    || o.maximum_temporary_entries_per_run == 0
    || ltb 10000 o.maximum_temporary_entries_per_run

abbrev pub first_snapshot : StoragePolicySnapshot
first_snapshot = record {
  watermark = StorageWatermark.normal;
  capacity_bytes = 0;
  available_bytes = 0;
  retained_event_bytes = 0;
  ordinary_rolling_writes_allowed = true;
  large_writes_allowed = true;
  maintenance_runs = 0;
  events_deleted = 0;
  event_delete_failures = 0;
  temporary_entries_deleted = 0;
  temporary_delete_failures = 0;
}
