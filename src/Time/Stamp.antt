-- ===== src/Time/Stamp.antt =====
-- src/time/src/time_model.cpp, `build_frame_time_metadata`: the stamp of a frame from its ticks, the
-- times of its arrival and the model that is published.
use paper_breakage_analysis.Base.{
  ℕ, Bool, true, false, not, ◌||◌, Option, none, some, ◌==◌, if◌then◌else◌,
}
use paper_breakage_analysis.Base.Integers.{ℤ, ltb_ℤ}
use paper_breakage_analysis.Time.Arithmetic.{camera_delta_nanoseconds}
use paper_breakage_analysis.Time.Model.{
  ClockSource, SyncState, FrameTimeMetadata, ClockModelSnapshot, is_some, differ, is_zero_frequency,
}
use paper_breakage_analysis.Time.Mapping.{is_valid_model, add_delta}

pub data FrameTimeBuildStatus : Type 0 where
  corrected no_model invalid_raw_timestamp missing_camera_timestamp : FrameTimeBuildStatus
  invalid_model frequency_mismatch model_not_yet_valid arithmetic_overflow : FrameTimeBuildStatus

pub record FrameTimeBuildResult : Type 0 where
  pub metadata : FrameTimeMetadata
  pub status : FrameTimeBuildStatus

abbrev pub received : ℤ → ℤ → FrameTimeMetadata
received monotonic utc = record {
  camera_timestamp_ticks = none;
  camera_timestamp_frequency_hz = none;
  received_monotonic_ns = monotonic;
  received_utc_ns = utc;
  corrected_capture_utc_ns = none;
  clock_source = ClockSource.unknown_source;
  clock_offset_ns = none;
  uncertainty_ns = none;
  sync_state = SyncState.unsynced;
  clock_model_revision = 0;
}

abbrev pub result_of : FrameTimeMetadata → FrameTimeBuildStatus → FrameTimeBuildResult
result_of m status = record { metadata = m; status = status }

unfoldable pub is_receive_clock : ClockSource → Bool
is_receive_clock ClockSource.receive_clock = true
is_receive_clock _ = false

unfoldable pub correct : FrameTimeMetadata → ClockModelSnapshot → Option ℤ → FrameTimeBuildResult
correct m s none = result_of m FrameTimeBuildStatus.arithmetic_overflow
correct m s (some time) =
    result_of
      (record m {
        corrected_capture_utc_ns = some time;
        clock_source = s.clock_source;
        clock_offset_ns = s.offset_ns;
        uncertainty_ns = s.uncertainty_ns;
        sync_state = s.sync_state;
        clock_model_revision = s.model_revision;
      })
      FrameTimeBuildStatus.corrected

-- The frequency of the stamp is there where its ticks are, by the first check.
abbrev pub other_frequency : Option ℕ → ℕ → Bool
other_frequency none f = true
other_frequency (some g) f = not (g == f)

unfoldable pub from_camera :
    FrameTimeMetadata → ClockModelSnapshot → Option ℕ → Option ℕ → Option ℕ → FrameTimeBuildResult
unfolding correct
from_camera m s (some ticks) (some anchor) (some frequency) =
    if other_frequency m.camera_timestamp_frequency_hz frequency
    then result_of m FrameTimeBuildStatus.frequency_mismatch
    else correct m s (add_delta s.anchor_utc_ns (camera_delta_nanoseconds ticks anchor frequency))
from_camera m s _ _ _ = result_of m FrameTimeBuildStatus.missing_camera_timestamp

unfoldable pub from_model : FrameTimeMetadata → Option ClockModelSnapshot → FrameTimeBuildResult
unfolding correct from_camera is_receive_clock
from_model m none = result_of m FrameTimeBuildStatus.no_model
from_model m (some s) =
    if not (is_valid_model s)
    then result_of m FrameTimeBuildStatus.invalid_model
    else if ltb_ℤ m.received_monotonic_ns s.valid_from_monotonic_ns
    then result_of m FrameTimeBuildStatus.model_not_yet_valid
    else if is_receive_clock s.clock_source
    then correct m s (some m.received_utc_ns)
    else from_camera m s m.camera_timestamp_ticks s.anchor_camera_ticks
        s.camera_timestamp_frequency_hz

unfoldable pub build_frame_time_metadata :
    Option ℕ → Option ℕ → ℤ → ℤ → Option ClockModelSnapshot → FrameTimeBuildResult
unfolding from_model
build_frame_time_metadata ticks frequency monotonic utc model =
    if differ (is_some ticks) (is_some frequency) || is_zero_frequency frequency
    then result_of (received monotonic utc) FrameTimeBuildStatus.invalid_raw_timestamp
    else from_model
        (record (received monotonic utc) {
          camera_timestamp_ticks = ticks;
          camera_timestamp_frequency_hz = frequency;
        })
        model
