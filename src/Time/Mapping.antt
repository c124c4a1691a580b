-- ===== src/Time/Mapping.antt =====
-- src/time/src/time_model.cpp: mapping between the monotonic clock and UTC, and the stamp of a frame.
-- A shared pointer to a constant model is the model, or none.
use paper_breakage_analysis.Base.{
  ℕ, Bool, true, false, not, Option, none, some, [], ◌∷◌, String, Result, Error, success, failure,
  make_error, error, detail, text, has_value, if◌then◌else◌,
}
use paper_breakage_analysis.Base.Integers.{ℤ, ltb_ℤ}
use paper_breakage_analysis.Time.Arithmetic.{checked_add, checked_subtract}
use paper_breakage_analysis.Time.Model.{
  ClockSource, SyncState, ClockModelSnapshot, is_some, validate_clock_model_snapshot,
}

pub record ClockTimeMapping : Type 0 where
  pub mapped_time_ns : ℤ
  pub model : ClockModelSnapshot

abbrev pub mapping_error : String → Error
mapping_error reason =
    let base = make_error "TIME_MAPPING_UNAVAILABLE" error "time" "time.map" true in
    record base { details = detail "reason" (text reason) ∷ [] }

abbrev pub unavailable : String → Result ClockTimeMapping
unavailable reason = failure (mapping_error reason)

abbrev pub is_valid_model : ClockModelSnapshot → Bool
is_valid_model s = has_value (validate_clock_model_snapshot s)

-- Both differences and both sums go through the anchors.
unfoldable pub add_delta : ℤ → Option ℤ → Option ℤ
add_delta anchor none = none
add_delta anchor (some delta) = checked_add anchor delta

unfoldable pub mapped : ClockModelSnapshot → Option ℤ → Result ClockTimeMapping
mapped s none = unavailable "arithmetic-overflow"
mapped s (some time) = success (record { mapped_time_ns = time; model = s })

unfoldable pub map_monotonic_to_utc : ℤ → Option ClockModelSnapshot → Result ClockTimeMapping
unfolding mapped add_delta
map_monotonic_to_utc monotonic_ns none = unavailable "missing-or-invalid-model"
map_monotonic_to_utc monotonic_ns (some s) =
    if not (is_valid_model s)
    then unavailable "missing-or-invalid-model"
    else if ltb_ℤ monotonic_ns s.valid_from_monotonic_ns
    then unavailable "model-not-yet-valid"
    else mapped s (add_delta s.anchor_utc_ns (checked_subtract monotonic_ns s.anchor_monotonic_ns))

unfoldable pub refuse_early : ClockModelSnapshot → Option ℤ → Result ClockTimeMapping
unfolding mapped
refuse_early s none = mapped s none
refuse_early s (some time) =
    if ltb_ℤ time s.valid_from_monotonic_ns
    then unavailable "model-not-yet-valid"
    else mapped s (some time)

unfoldable pub map_utc_to_monotonic : ℤ → Option ClockModelSnapshot → Result ClockTimeMapping
unfolding refuse_early add_delta
map_utc_to_monotonic utc_ns none = unavailable "missing-or-invalid-model"
map_utc_to_monotonic utc_ns (some s) =
    if not (is_valid_model s)
    then unavailable "missing-or-invalid-model"
    else refuse_early s (add_delta s.anchor_monotonic_ns (checked_subtract utc_ns s.anchor_utc_ns))

pub record ClockSyncSnapshot : Type 0 where
  pub available : Bool
  pub current_utc_ns : Option ℤ
  pub clock_source : ClockSource
  pub sync_state : SyncState
  pub offset_ns : Option ℤ
  pub offset_available : Bool
  pub uncertainty_ns : Option ℤ
  pub uncertainty_available : Bool
  pub maximum_observed_offset_ns : Option ℤ
  pub maximum_observed_offset_available : Bool
  pub last_synchronized_utc_ns : Option ℤ
  pub last_synchronized_utc_available : Bool
  pub grandmaster_identity : Option String
  pub grandmaster_available : Bool
  pub model_revision : ℕ
  pub last_error_code : Option String

abbrev pub no_clock : ClockSyncSnapshot
no_clock = record {
  available = false;
  current_utc_ns = none;
  clock_source = ClockSource.unknown_source;
  sync_state = SyncState.unknown_state;
  offset_ns = none;
  offset_available = false;
  uncertainty_ns = none;
  uncertainty_available = false;
  maximum_observed_offset_ns = none;
  maximum_observed_offset_available = false;
  last_synchronized_utc_ns = none;
  last_synchronized_utc_available = false;
  grandmaster_identity = none;
  grandmaster_available = false;
  model_revision = 0;
  last_error_code = none;
}

abbrev pub mapped_time : Result ClockTimeMapping → Option ℤ
mapped_time (success m) = some m.mapped_time_ns
mapped_time (failure e) = none

unfoldable pub build_clock_sync_snapshot : Option ClockModelSnapshot → ℤ → ClockSyncSnapshot
build_clock_sync_snapshot none now = no_clock
build_clock_sync_snapshot (some s) now = if not (is_valid_model s) then no_clock else record {
  available = true;
  current_utc_ns = mapped_time (map_monotonic_to_utc now (some s));
  clock_source = s.clock_source;
  sync_state = s.sync_state;
  offset_ns = s.offset_ns;
  offset_available = is_some s.offset_ns;
  uncertainty_ns = s.uncertainty_ns;
  uncertainty_available = is_some s.uncertainty_ns;
  maximum_observed_offset_ns = s.maximum_observed_offset_ns;
  maximum_observed_offset_available = is_some s.maximum_observed_offset_ns;
  last_synchronized_utc_ns = s.last_synchronized_utc_ns;
  last_synchronized_utc_available = is_some s.last_synchronized_utc_ns;
  grandmaster_identity = s.grandmaster_identity;
  grandmaster_available = is_some s.grandmaster_identity;
  model_revision = s.model_revision;
  last_error_code = s.last_error_code;
}

-- `ImmutableClockModelStore`: one slot that each publication replaces whole.
pub record ClockModelStore : Type 0 where
  pub snapshot : Option ClockModelSnapshot

unfoldable pub publish : ClockModelStore → Option ClockModelSnapshot → ClockModelStore
publish store s = record { snapshot = s }

unfoldable pub clear : ClockModelStore → ClockModelStore
clear store = record { snapshot = none }

unfoldable pub load : ClockModelStore → Option ClockModelSnapshot
load store = store.snapshot
