-- ===== src/Time/Exact.antt =====
-- The corrected time of a frame: the anchor of the model and the exact distance in ticks.
use paper_breakage_analysis.Base.{
  ℕ, ◌<◌, ◌≡◌, refl, true, false, Option, none, some, arith, ◌∙◌, ap, ◌==◌, u64_mod,
}
use paper_breakage_analysis.Base.Integers.{ℤ, ltb_ℤ, ◌+ℤ◌, ◌-ℤ◌, IsInt64}
use paper_breakage_analysis.Time.Model.{FrameTimeMetadata, ClockModelSnapshot}
use paper_breakage_analysis.Time.Mapping.{is_valid_model, add_delta}
use paper_breakage_analysis.Time.Arithmetic.{camera_delta_nanoseconds, signed}
use paper_breakage_analysis.Time.Overflow.{
  exact_delta, fitting, checked_add-fitting, camera_delta_nanoseconds-exact_delta,
}
use paper_breakage_analysis.Time.Stamp.{
  FrameTimeBuildResult, correct, from_camera, from_model, build_frame_time_metadata,
  is_receive_clock,
}

abbrev pub corrected_time : FrameTimeBuildResult → Option ℤ
corrected_time r = r.metadata.corrected_capture_utc_ns

-- The anchor moved by a distance, where both fit.
unfoldable pub exact_time : ℤ → Option ℤ → Option ℤ
exact_time anchor none = none
exact_time anchor (some d) = fitting (anchor +ℤ d)

exact_delta-IsInt64 : (t a f : ℕ) (d : ℤ) → exact_delta t a f ≡ some d → IsInt64 d
unfolding exact_delta signed ◌-ℤ◌
exact_delta-IsInt64 t a f d e = ground arith

add_delta-exact_time :
    (u : ℤ) (o : Option ℤ)
    → IsInt64 u
    → ((d : ℤ) → o ≡ some d → IsInt64 d)
    → add_delta u o ≡ exact_time u o
unfolding add_delta exact_time
add_delta-exact_time u none p q = refl
add_delta-exact_time u (some d) p q = checked_add-fitting u d p (q d refl)

correct_lem :
    (m : FrameTimeMetadata) (s : ClockModelSnapshot) (o : Option ℤ)
    → m.corrected_capture_utc_ns ≡ none
    → (correct m s o).metadata.corrected_capture_utc_ns ≡ o
unfolding correct
correct_lem m s none e = e
correct_lem m s (some t) e = refl

-- By a valid model that is in force and does not follow the receive clock, with an anchor and the
-- frequency of the camera, the corrected time of a frame is the UTC anchor plus the exact distance of
-- the ticks in nanoseconds, rounded towards zero. It is none exactly where the magnitude of that distance
-- is above the largest `std::int64_t`, also where the sum would fit, or where the sum does not fit.
pub build_frame_time_metadata-exact_time :
    (ticks anchor frequency : ℕ) (monotonic utc : ℤ) (s : ClockModelSnapshot)
    → ticks < u64_mod
    → anchor < u64_mod
    → 0 < frequency
    → frequency < u64_mod
    → IsInt64 s.anchor_utc_ns
    → is_valid_model s ≡ true
    → ltb_ℤ monotonic s.valid_from_monotonic_ns ≡ false
    → is_receive_clock s.clock_source ≡ false
    → s.anchor_camera_ticks ≡ some anchor
    → s.camera_timestamp_frequency_hz ≡ some frequency
    → corrected_time
        (build_frame_time_metadata (some ticks) (some frequency) monotonic utc (some s))
      ≡ exact_time s.anchor_utc_ns (exact_delta ticks anchor frequency)
unfolding build_frame_time_metadata from_model from_camera
build_frame_time_metadata-exact_time t a f m u s h i j k l v w x y z =
    let nonzero : (f == 0) ≡ false = ground arith in
    let same : (f == f) ≡ true = ground arith in
    rw (nonzero, v, w, x, y, z, same)
      (correct_lem _ s (add_delta s.anchor_utc_ns (camera_delta_nanoseconds t a f)) refl
        ∙ ap (add_delta s.anchor_utc_ns) (camera_delta_nanoseconds-exact_delta t a f h i j k)
        ∙ add_delta-exact_time s.anchor_utc_ns (exact_delta t a f) l (exact_delta-IsInt64 t a f))
