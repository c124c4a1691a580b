-- ===== src/Time/Examples.antt =====
-- The time model on concrete clocks.
use paper_breakage_analysis.Base.{◌*◌, ◌/◌, ◌%◌, ◌≡◌, refl, true, none, some, success, arith}
use paper_breakage_analysis.Base.Integers.{pos, negsuc, ◌+ℤ◌, ◌-ℤ◌}
use paper_breakage_analysis.Time.Arithmetic.{
  multiply_divide, camera_delta_nanoseconds, divide_bits, divide_bit, double, add_value,
  checked_add, checked_subtract, signed,
}
use paper_breakage_analysis.Time.Division.{multiply_divide_exact}
use paper_breakage_analysis.Time.Overflow.{
  exact_delta, fitting, camera_delta_nanoseconds-exact_delta,
}
use paper_breakage_analysis.Time.Model.{
  ClockSource, SyncState, ClockModelSnapshot, validate_clock_model_snapshot,
}
use paper_breakage_analysis.Time.Points.{
  time_point_nanoseconds, time_point_nanoseconds-fitting, scale,
}
use paper_breakage_analysis.Time.Mapping.{
  ClockTimeMapping, map_monotonic_to_utc, map_utc_to_monotonic, is_valid_model, mapped, add_delta,
}
use paper_breakage_analysis.Time.RoundTrip.{map_utc_to_monotonic-map_monotonic_to_utc}
use paper_breakage_analysis.Time.Stamp.{build_frame_time_metadata, is_receive_clock}
use paper_breakage_analysis.Time.Consistent.{IsConsistent, build_frame_time_metadata-IsConsistent}
use paper_breakage_analysis.Time.Exact.{
  exact_time, corrected_time, build_frame_time_metadata-exact_time,
}

-- 999,999,999 ticks of a clock of just over 1 GHz.
multiply_divide_exact_example :
    let result = multiply_divide 999999999 1000000000 1000000007 in
    (result.quotient ≡ 999999999 * 1000000000 / 1000000007)
    × (result.remainder ≡ 999999999 * 1000000000 % 1000000007)
multiply_divide_exact_example =
    multiply_divide_exact 999999999 1000000000 1000000007 (omega arith) (omega arith) (omega arith)

camera_delta_nanoseconds-exact_delta_example :
    camera_delta_nanoseconds 1000 4000 3000 ≡ exact_delta 1000 4000 3000
camera_delta_nanoseconds-exact_delta_example =
    camera_delta_nanoseconds-exact_delta 1000 4000 3000 (omega arith) (omega arith) (omega arith)
      (omega arith)

-- The ticks go back one second.
second_earlier : camera_delta_nanoseconds 1000 4000 3000 ≡ some (negsuc 999999999)
unfolding camera_delta_nanoseconds multiply_divide divide_bits divide_bit double add_value signed
    ◌-ℤ◌
second_earlier = refl

-- A clock of 100 ns, before its epoch.
time_point_nanoseconds-fitting_example :
    time_point_nanoseconds 10000000 (negsuc 24999999) ≡ fitting (scale (negsuc 24999999) 100)
time_point_nanoseconds-fitting_example =
    time_point_nanoseconds-fitting 10000000 100 (negsuc 24999999) (omega arith) (omega arith) refl

abbrev ptp_model : ClockModelSnapshot
ptp_model = record {
  model_revision = 3;
  camera_id = none;
  clock_source = ClockSource.ptp_hardware;
  sync_state = SyncState.synced;
  anchor_monotonic_ns = pos 5000;
  anchor_utc_ns = pos 1700000000000000000;
  anchor_camera_ticks = some 1000;
  camera_timestamp_frequency_hz = some 1000000;
  offset_ns = none;
  uncertainty_ns = some (pos 250);
  maximum_observed_offset_ns = none;
  valid_from_monotonic_ns = pos 4000;
  last_synchronized_utc_ns = none;
  grandmaster_identity = none;
  last_error_code = none;
}

-- A frame that came 500 ns before the anchor.
abbrev earlier_mapping : ClockTimeMapping
earlier_mapping = record { mapped_time_ns = pos 1699999999999999500; model = ptp_model }

earlier_mapped : map_monotonic_to_utc (pos 4500) (some ptp_model) ≡ success earlier_mapping
unfolding map_monotonic_to_utc mapped add_delta checked_add checked_subtract
    validate_clock_model_snapshot ◌+ℤ◌ ◌-ℤ◌
earlier_mapped = refl

map_utc_to_monotonic-map_monotonic_to_utc_example :
    map_utc_to_monotonic (pos 1699999999999999500) (some ptp_model)
    ≡ success (record { mapped_time_ns = pos 4500; model = ptp_model })
map_utc_to_monotonic-map_monotonic_to_utc_example =
    map_utc_to_monotonic-map_monotonic_to_utc (pos 4500) ptp_model earlier_mapping
      (omega arith, omega arith) ((omega arith, omega arith), (omega arith, omega arith))
      earlier_mapped

build_frame_time_metadata-IsConsistent_example : IsConsistent (
    build_frame_time_metadata
      (some 3000)
      (some 1000000)
      (pos 6000)
      (pos 1700000000000009000)
      (some ptp_model))
build_frame_time_metadata-IsConsistent_example =
    build_frame_time_metadata-IsConsistent (some 3000) (some 1000000) (pos 6000)
      (pos 1700000000000009000) (some ptp_model)

ptp_model_valid : is_valid_model ptp_model ≡ true
unfolding validate_clock_model_snapshot
ptp_model_valid = refl

build_frame_time_metadata-exact_time_example :
    corrected_time (
      build_frame_time_metadata
        (some 3000)
        (some 1000000)
        (pos 6000)
        (pos 1700000000000009000)
        (some ptp_model))
    ≡ exact_time (pos 1700000000000000000) (exact_delta 3000 1000 1000000)
unfolding is_receive_clock
build_frame_time_metadata-exact_time_example =
    build_frame_time_metadata-exact_time 3000 1000 1000000 (pos 6000) (pos 1700000000000009000)
      ptp_model (omega arith) (omega arith) (omega arith) (omega arith) (omega arith, omega arith)
      ptp_model_valid refl refl refl refl
