-- ===== src/Time/Consistent.antt =====
-- The stamps that src/time/src/time_model.cpp builds, and its check of stamps.
use paper_breakage_analysis.Base.{
  ℕ, ◌≡◌, refl, Bool, true, false, not, Option, none, some, success, arith, if-holds, ◌||◌, ◌==◌,
}
use paper_breakage_analysis.Base.Integers.{ℤ, ltb_ℤ}
use paper_breakage_analysis.Time.Model.{
  SyncState, FrameTimeMetadata, ClockModelSnapshot, is_some, differ, is_zero_frequency, is_negative,
  inconsistent_correction, needs_correction, validate_correction, validate_frame_time_metadata,
  validate_clock_model_snapshot, corrected_state, known_source, source_allows_state,
}
use paper_breakage_analysis.Time.Mapping.{is_valid_model}
use paper_breakage_analysis.Time.Stamp.{
  FrameTimeBuildResult, FrameTimeBuildStatus, result_of, correct, from_camera, from_model,
  build_frame_time_metadata, received, is_receive_clock, other_frequency,
}

-- The quality that a valid model lends to a stamp.
valid_model_lem :
    (s : ClockModelSnapshot)
    → is_valid_model s ≡ true
    → ((s.model_revision == 0) ≡ false)
      × (known_source s.clock_source ≡ true)
      × (corrected_state s.sync_state ≡ true)
      × (source_allows_state s.clock_source s.sync_state ≡ true)
      × (is_some s.uncertainty_ns ≡ true)
      × (is_negative s.uncertainty_ns ≡ false)
unfolding validate_clock_model_snapshot
valid_model_lem s e = ground arith

-- A stamp with consistent ticks and no correction yet.
abbrev IsRaw : FrameTimeMetadata → Type 0
IsRaw m =
    (differ (is_some m.camera_timestamp_ticks) (is_some m.camera_timestamp_frequency_hz) ≡ false)
    × (is_zero_frequency m.camera_timestamp_frequency_hz ≡ false)
    × (m.uncertainty_ns ≡ none)
    × (m.corrected_capture_utc_ns ≡ none)
    × (m.sync_state ≡ SyncState.unsynced)

abbrev is_corrected : FrameTimeBuildStatus → Bool
is_corrected FrameTimeBuildStatus.corrected = true
is_corrected _ = false

-- Accepted, and with a corrected time exactly where the status says so.
abbrev pub IsConsistent : FrameTimeBuildResult → Type 0
IsConsistent r =
    (validate_frame_time_metadata r.metadata ≡ success tt)
    × (is_corrected r.status ≡ is_some r.metadata.corrected_capture_utc_ns)

raw-IsConsistent :
    (m : FrameTimeMetadata) (status : FrameTimeBuildStatus)
    → IsRaw m
    → is_corrected status ≡ false
    → IsConsistent (result_of m status)
unfolding validate_frame_time_metadata validate_correction needs_correction
raw-IsConsistent m status (a, b, c, d, e) f = rw (a, b, c, d, e, f) (refl, refl)

correct-IsConsistent :
    (m : FrameTimeMetadata) (s : ClockModelSnapshot) (o : Option ℤ)
    → IsRaw m
    → is_valid_model s ≡ true
    → IsConsistent (correct m s o)
unfolding correct validate_frame_time_metadata validate_correction inconsistent_correction
correct-IsConsistent m s none r v =
    raw-IsConsistent m FrameTimeBuildStatus.arithmetic_overflow r refl
correct-IsConsistent m s (some time) (a, b, c, d, e) v =
    let (rev, known, state, allows, has, sign) = valid_model_lem s v in
    rw (a, b, rev, known, state, allows, has, sign) (refl, refl)

from_camera-IsConsistent :
    (m : FrameTimeMetadata) (s : ClockModelSnapshot) (x y z : Option ℕ)
    → IsRaw m
    → is_valid_model s ≡ true
    → IsConsistent (from_camera m s x y z)
unfolding from_camera
from_camera-IsConsistent m s (some ticks) (some anchor) (some f) r v =
    if-holds IsConsistent (other_frequency m.camera_timestamp_frequency_hz f)
      (λ e. raw-IsConsistent m FrameTimeBuildStatus.frequency_mismatch r refl)
      (λ e. correct-IsConsistent m s _ r v)
from_camera-IsConsistent m s none y z r v =
    raw-IsConsistent m FrameTimeBuildStatus.missing_camera_timestamp r refl
from_camera-IsConsistent m s (some x) none z r v =
    raw-IsConsistent m FrameTimeBuildStatus.missing_camera_timestamp r refl
from_camera-IsConsistent m s (some x) (some y) none r v =
    raw-IsConsistent m FrameTimeBuildStatus.missing_camera_timestamp r refl

from_model-IsConsistent :
    (m : FrameTimeMetadata) (o : Option ClockModelSnapshot)
    → IsRaw m
    → IsConsistent (from_model m o)
unfolding from_model
from_model-IsConsistent m none r = raw-IsConsistent m FrameTimeBuildStatus.no_model r refl
from_model-IsConsistent m (some s) r =
    if-holds IsConsistent (not (is_valid_model s))
      (λ e. raw-IsConsistent m FrameTimeBuildStatus.invalid_model r refl)
      (λ e.
        if-holds IsConsistent (ltb_ℤ m.received_monotonic_ns s.valid_from_monotonic_ns)
          (λ f. raw-IsConsistent m FrameTimeBuildStatus.model_not_yet_valid r refl)
          (λ f.
            if-holds IsConsistent (is_receive_clock s.clock_source)
              (λ g. correct-IsConsistent m s (some m.received_utc_ns) r (ground arith))
              (λ g.
                from_camera-IsConsistent m s m.camera_timestamp_ticks s.anchor_camera_ticks
                  s.camera_timestamp_frequency_hz r (ground arith))))

-- Whatever a camera, the clocks and the published model say, the stamp that
-- `build_frame_time_metadata` returns passes `validate_frame_time_metadata`, and it holds a corrected
-- time exactly where the status is `corrected`.
pub build_frame_time_metadata-IsConsistent :
    (ticks frequency : Option ℕ) (monotonic utc : ℤ) (model : Option ClockModelSnapshot)
    → IsConsistent (build_frame_time_metadata ticks frequency monotonic utc model)
unfolding build_frame_time_metadata
build_frame_time_metadata-IsConsistent ticks frequency monotonic utc model =
    if-holds IsConsistent
      (differ (is_some ticks) (is_some frequency) || is_zero_frequency frequency)
      (λ e.
        raw-IsConsistent (received monotonic utc) FrameTimeBuildStatus.invalid_raw_timestamp
          (refl, refl, refl, refl, refl) refl)
      (λ e. from_model-IsConsistent _ model (ground arith, ground arith, refl, refl, refl))
