-- ===== src/Camera/Frame.antt =====
-- src/camera/include/paperbreak/camera/frame.hpp and src/camera/src/frame.cpp: frame buffers, packets
-- and the checked projection of a packet. A time point is the count of its clock; `Clocks` are the
-- ticks of the two clocks of the standard library in a second.
use paper_breakage_analysis.Base.{
  ℕ, ◌*◌, ◌/◌, ◌^◌, ◌%◌, Bool, true, false, not, ◌&&◌, ◌||◌, Option, none, some, List, [], ◌∷◌,
  String, Result, Error, success, failure, make_error, error, detail, text, length, take, replicate,
  ltb, ◌==◌, if◌then◌else◌, is_empty, has_value, u64_max, u64_mod,
}
use paper_breakage_analysis.Base.Integers.{ℤ, pos, negsuc}
use paper_breakage_analysis.Time.Model.{
  ClockSource, SyncState, FrameTimeMetadata, is_some, validate_frame_time_metadata,
}
use paper_breakage_analysis.Time.Points.{tdiv, time_point_nanoseconds}
use paper_breakage_analysis.Time.Arithmetic.{nanoseconds_per_second}
use paper_breakage_analysis.Time.Stamp.{build_frame_time_metadata}
pub mod View

pub data PixelFormat : Type 0 where
  mono8 mono10 mono12 bayer_rg8 : PixelFormat

pub data CameraTimestampQuality : Type 0 where
  unknown unsynchronized synchronized : CameraTimestampQuality

pub record CameraTimestamp : Type 0 where
  pub ticks : ℕ
  pub frequency_hz : ℕ
  pub quality : CameraTimestampQuality

pub record FrameGeometry : Type 0 where
  pub width : ℕ
  pub height : ℕ
  pub stride : ℕ

-- The storage of a buffer, one number for a byte, and how much of it is in use.
pub record FrameBuffer : Type 0 where
  pub storage : List ℕ
  pub size : ℕ

unfoldable pub new_buffer : ℕ → FrameBuffer
new_buffer capacity = record { storage = replicate capacity 0; size = 0 }

abbrev pub buffer_capacity : FrameBuffer → ℕ
buffer_capacity b = length b.storage

unfoldable pub buffer_bytes : FrameBuffer → List ℕ
buffer_bytes b = take b.size b.storage

unfoldable pub set_size : FrameBuffer → ℕ → FrameBuffer × Bool
set_size b size =
    if ltb (buffer_capacity b) size then (b, false) else (record b { size = size }, true)

unfoldable pub clear_buffer : FrameBuffer → FrameBuffer
clear_buffer b = record b { size = 0 }

pub record FramePacket : Type 0 where
  pub camera_id : String
  pub camera_frame_number : ℕ
  pub sequence_number : ℕ
  pub received_monotonic_time : ℤ
  pub received_wall_clock_time : ℤ
  pub camera_timestamp : Option CameraTimestamp
  pub time_metadata : FrameTimeMetadata
  pub geometry : FrameGeometry
  pub pixel_format : PixelFormat
  pub buffer : Option FrameBuffer
  pub incomplete : Bool

pub record FrameView : Type 0 where
  pub camera_id : String
  pub camera_frame_number : ℕ
  pub sequence_number : ℕ
  pub received_monotonic_time : ℤ
  pub received_wall_clock_time : ℤ
  pub camera_timestamp : Option CameraTimestamp
  pub time_metadata : FrameTimeMetadata
  pub geometry : FrameGeometry
  pub pixel_format : PixelFormat
  pub buffer : FrameBuffer
  pub incomplete : Bool

abbrev pub invalid_frame : String → Error
invalid_frame reason =
    let base = make_error "CAMERA_CONFIG_FAILED" error "camera" "camera.createFrameView" false in
    record base { details = detail "reason" (text reason) ∷ [] }

abbrev pub refused : String → Result FrameView
refused reason = failure (invalid_frame reason)

abbrev pub is_zero : ℤ → Bool
is_zero (pos n) = n == 0
is_zero (negsuc n) = false

abbrev pub is_unknown_source : ClockSource → Bool
is_unknown_source ClockSource.unknown_source = true
is_unknown_source _ = false

abbrev pub is_unsynced : SyncState → Bool
is_unsynced SyncState.unsynced = true
is_unsynced _ = false

-- `frame_time == time::FrameTimeMetadata{}`
unfoldable pub is_default_time : FrameTimeMetadata → Bool
is_default_time t =
    not (is_some t.camera_timestamp_ticks)
    && not (is_some t.camera_timestamp_frequency_hz)
    && is_zero t.received_monotonic_ns
    && is_zero t.received_utc_ns
    && not (is_some t.corrected_capture_utc_ns)
    && is_unknown_source t.clock_source
    && not (is_some t.clock_offset_ns)
    && not (is_some t.uncertainty_ns)
    && is_unsynced t.sync_state
    && t.clock_model_revision == 0

pub record Clocks : Type 0 where
  pub steady_ticks : ℕ
  pub system_ticks : ℕ

-- `duration_cast` of nanoseconds to the ticks of a clock.
abbrev pub from_nanoseconds : ℕ → ℤ → ℤ
from_nanoseconds ticks_per_second ns = tdiv ns (nanoseconds_per_second / ticks_per_second)

abbrev pub timestamp_ticks : Option CameraTimestamp → Option ℕ
timestamp_ticks none = none
timestamp_ticks (some t) = some t.ticks

abbrev pub timestamp_frequency : Option CameraTimestamp → Option ℕ
timestamp_frequency none = none
timestamp_frequency (some t) = some t.frequency_hz

abbrev pub built_time : Option CameraTimestamp → Option ℤ → Option ℤ → Result FrameTimeMetadata
built_time stamp (some monotonic) (some utc) =
    success
      (build_frame_time_metadata (timestamp_ticks stamp) (timestamp_frequency stamp) monotonic utc
        none).metadata
built_time stamp _ _ = failure (invalid_frame "receive-time-overflow")

-- The metadata of a packet, or metadata built for one that has only the older fields.
unfoldable pub frame_time : Clocks → FramePacket → Result FrameTimeMetadata
frame_time clocks p =
    let has_legacy_time =
      not (is_zero p.received_monotonic_time)
      || not (is_zero p.received_wall_clock_time)
      || is_some p.camera_timestamp in
    if is_default_time p.time_metadata && has_legacy_time
    then built_time p.camera_timestamp
        (time_point_nanoseconds clocks.steady_ticks p.received_monotonic_time)
        (time_point_nanoseconds clocks.system_ticks p.received_wall_clock_time)
    else success p.time_metadata

abbrev pub quality_of : SyncState → CameraTimestampQuality
quality_of SyncState.synced = CameraTimestampQuality.synchronized
quality_of _ = CameraTimestampQuality.unsynchronized

abbrev pub view_timestamp : SyncState → Option ℕ → Option ℕ → Option CameraTimestamp
view_timestamp state (some ticks) (some frequency) =
    some (record { ticks = ticks; frequency_hz = frequency; quality = quality_of state })
view_timestamp state _ _ = none

unfoldable pub view_of : Clocks → FramePacket → FrameBuffer → FrameTimeMetadata → FrameView
view_of clocks p buffer t = record {
  camera_id = p.camera_id;
  camera_frame_number = p.camera_frame_number;
  sequence_number = p.sequence_number;
  received_monotonic_time = from_nanoseconds clocks.steady_ticks t.received_monotonic_ns;
  received_wall_clock_time = from_nanoseconds clocks.system_ticks t.received_utc_ns;
  camera_timestamp =
      view_timestamp t.sync_state t.camera_timestamp_ticks t.camera_timestamp_frequency_hz;
  time_metadata = t;
  geometry = p.geometry;
  pixel_format = p.pixel_format;
  buffer = buffer;
  incomplete = p.incomplete;
}

unfoldable pub view_at :
    Clocks → FramePacket → FrameBuffer → Result FrameTimeMetadata → Result FrameView
view_at clocks p buffer (failure e) = failure e
view_at clocks p buffer (success t) =
    if not (has_value (validate_frame_time_metadata t))
    then refused "invalid-time-metadata"
    else success (view_of clocks p buffer t)

unfoldable pub view_with_buffer : Clocks → FramePacket → Option FrameBuffer → Result FrameView
unfolding view_at
view_with_buffer clocks p none = refused "missing-buffer"
view_with_buffer clocks p (some buffer) =
    let g = p.geometry in
    if g.width == 0 || g.height == 0 || g.stride == 0
    then refused "invalid-geometry"
    else if ltb (u64_max / g.stride) g.height
    then refused "payload-size-overflow"
    else if not (buffer.size == g.height * g.stride % u64_mod)
    then refused "payload-size-mismatch"
    else view_at clocks p buffer (frame_time clocks p)

unfoldable pub make_frame_view : Clocks → FramePacket → Result FrameView
unfolding view_with_buffer
make_frame_view clocks p =
    if is_empty p.camera_id then refused "missing-camera-id" else view_with_buffer clocks p p.buffer
