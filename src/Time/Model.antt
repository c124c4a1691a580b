-- ===== src/Time/Model.antt =====
-- src/time/include/paperbreak/time/time_model.hpp and src/time/src/time_model.cpp: the clock model
-- that is published, the stamp of a frame, and what makes either consistent.
use paper_breakage_analysis.Base.{
  ℕ, Bool, true, false, not, ◌||◌, Option, none, some, [], ◌∷◌, String, Result, Error, success,
  failure, make_error, error, detail, text, ◌==◌, if◌then◌else◌,
}
use paper_breakage_analysis.Base.Integers.{ℤ, pos, ltb_ℤ}

pub data ClockSource : Type 0 where
  unknown_source ptp_hardware ptp_software ntp offset_model receive_clock : ClockSource

pub data SyncState : Type 0 where
  unknown_state synced syncing degraded unsynced : SyncState

pub record FrameTimeMetadata : Type 0 where
  pub camera_timestamp_ticks : Option ℕ
  pub camera_timestamp_frequency_hz : Option ℕ
  pub received_monotonic_ns : ℤ
  pub received_utc_ns : ℤ
  pub corrected_capture_utc_ns : Option ℤ
  pub clock_source : ClockSource
  pub clock_offset_ns : Option ℤ
  pub uncertainty_ns : Option ℤ
  pub sync_state : SyncState
  pub clock_model_revision : ℕ

pub record ClockModelSnapshot : Type 0 where
  pub model_revision : ℕ
  pub camera_id : Option String
  pub clock_source : ClockSource
  pub sync_state : SyncState
  pub anchor_monotonic_ns : ℤ
  pub anchor_utc_ns : ℤ
  pub anchor_camera_ticks : Option ℕ
  pub camera_timestamp_frequency_hz : Option ℕ
  pub offset_ns : Option ℤ
  pub uncertainty_ns : Option ℤ
  pub maximum_observed_offset_ns : Option ℤ
  pub valid_from_monotonic_ns : ℤ
  pub last_synchronized_utc_ns : Option ℤ
  pub grandmaster_identity : Option String
  pub last_error_code : Option String

abbrev pub time_error : String → String → Error
time_error code reason =
    let base = make_error code error "time" "time.validate" false in
    record base { details = detail "reason" (text reason) ∷ [] }

-- `std::optional::has_value`
abbrev pub is_some {ℓ} : {A : Type ℓ} → Option A → Bool
is_some none = false
is_some (some a) = true

unfoldable pub corrected_state : SyncState → Bool
corrected_state SyncState.synced = true
corrected_state SyncState.syncing = true
corrected_state SyncState.degraded = true
corrected_state _ = false

unfoldable pub known_source : ClockSource → Bool
known_source ClockSource.unknown_source = false
known_source _ = true

unfoldable pub source_allows_state : ClockSource → SyncState → Bool
source_allows_state ClockSource.offset_model SyncState.synced = false
source_allows_state ClockSource.receive_clock SyncState.synced = false
source_allows_state _ _ = true

unfoldable pub clock_source_name : ClockSource → String
clock_source_name ClockSource.ptp_hardware = "PTP_HARDWARE"
clock_source_name ClockSource.ptp_software = "PTP_SOFTWARE"
clock_source_name ClockSource.ntp = "NTP"
clock_source_name ClockSource.offset_model = "OFFSET_MODEL"
clock_source_name ClockSource.receive_clock = "RECEIVE_CLOCK"
clock_source_name ClockSource.unknown_source = "UNKNOWN"

unfoldable pub sync_state_name : SyncState → String
sync_state_name SyncState.synced = "SYNCED"
sync_state_name SyncState.syncing = "SYNCING"
sync_state_name SyncState.degraded = "DEGRADED"
sync_state_name SyncState.unsynced = "UNSYNCED"
sync_state_name SyncState.unknown_state = "UNKNOWN"

-- An optional frequency that is there and zero, an optional duration that is there and negative.
abbrev pub is_zero_frequency : Option ℕ → Bool
is_zero_frequency none = false
is_zero_frequency (some f) = f == 0

abbrev pub is_negative : Option ℤ → Bool
is_negative none = false
is_negative (some d) = ltb_ℤ d (pos 0)

-- `a != b` on truth values.
abbrev pub differ : Bool → Bool → Bool
differ true b = not b
differ false b = b

abbrev pub invalid : String → Result (Unit {0})
invalid reason = failure (time_error "TIME_MODEL_INVALID" reason)

-- The quality that a corrected time needs, and the states without one.
unfoldable pub inconsistent_correction : FrameTimeMetadata → Bool
unfolding corrected_state known_source source_allows_state
inconsistent_correction m =
    m.clock_model_revision == 0
    || not (is_some m.uncertainty_ns)
    || not (corrected_state m.sync_state)
    || not (known_source m.clock_source)
    || not (source_allows_state m.clock_source m.sync_state)

unfoldable pub needs_correction : SyncState → Bool
needs_correction SyncState.unsynced = false
needs_correction SyncState.unknown_state = false
needs_correction _ = true

unfoldable pub validate_correction : FrameTimeMetadata → Option ℤ → Result (Unit {0})
unfolding inconsistent_correction needs_correction
validate_correction m none =
    if needs_correction m.sync_state then invalid "missing-corrected-time-for-state" else success tt
validate_correction m (some corrected) =
    if inconsistent_correction m then invalid "inconsistent-corrected-time" else success tt

unfoldable pub validate_frame_time_metadata : FrameTimeMetadata → Result (Unit {0})
unfolding validate_correction
validate_frame_time_metadata m =
    if differ (is_some m.camera_timestamp_ticks) (is_some m.camera_timestamp_frequency_hz)
    then invalid "camera-timestamp-pair-mismatch"
    else if is_zero_frequency m.camera_timestamp_frequency_hz
    then invalid "camera-timestamp-frequency-zero"
    else if is_negative m.uncertainty_ns
    then invalid "negative-uncertainty"
    else validate_correction m m.corrected_capture_utc_ns

unfoldable pub validate_clock_model_snapshot : ClockModelSnapshot → Result (Unit {0})
unfolding corrected_state known_source source_allows_state
validate_clock_model_snapshot s =
    if s.model_revision == 0
    then invalid "zero-model-revision"
    else if not (known_source s.clock_source)
        || not (corrected_state s.sync_state)
        || not (source_allows_state s.clock_source s.sync_state)
    then invalid "unknown-model-quality"
    else if differ (is_some s.anchor_camera_ticks) (is_some s.camera_timestamp_frequency_hz)
    then invalid "camera-anchor-pair-mismatch"
    else if is_zero_frequency s.camera_timestamp_frequency_hz
    then invalid "model-frequency-zero"
    else if not (is_some s.uncertainty_ns) || is_negative s.uncertainty_ns
    then invalid "invalid-uncertainty"
    else if is_negative s.maximum_observed_offset_ns
    then invalid "negative-maximum-observed-offset"
    else success tt
