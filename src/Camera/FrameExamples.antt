-- ===== src/Camera/FrameExamples.antt =====
-- A packet, its view, and a pool of two buffers.
use paper_breakage_analysis.Base.{◌≡◌, refl, false, List, [], ◌∷◌, some, none, success, ◌↔◌}
use paper_breakage_analysis.Base.CameraSlots.{camera_slot_index, camera_id_from_slot}
use paper_breakage_analysis.Base.CameraSlots.RoundTrip.{camera_slot_index-camera_id_from_slot}
use paper_breakage_analysis.Base.Integers.{pos}
use paper_breakage_analysis.Time.Model.{
  validate_frame_time_metadata, validate_correction, needs_correction,
}
use paper_breakage_analysis.Time.Stamp.{received}
use paper_breakage_analysis.Camera.Frame.{
  PixelFormat, FrameBuffer, FramePacket, FrameView, Clocks, make_frame_view, view_with_buffer,
  view_at, view_of, frame_time, is_default_time,
}
use paper_breakage_analysis.Camera.Frame.View.{IsWellFormed, make_frame_view-IsWellFormed}
use paper_breakage_analysis.Camera.FramePool.{PoolCall, new_pool, fresh_pool, run_pool}
use paper_breakage_analysis.Camera.FramePool.Accounts.{IsAccounted, run_pool-IsAccounted}

abbrev pub windows_clocks : Clocks
windows_clocks = record { steady_ticks = 1000000000; system_ticks = 10000000 }

abbrev pub small_buffer : FrameBuffer
small_buffer = record { storage = 1 ∷ 2 ∷ 3 ∷ 4 ∷ 0 ∷ 0 ∷ []; size = 4 }

abbrev pub small_packet : FramePacket
small_packet = record {
  camera_id = "CAM01";
  camera_frame_number = 11;
  sequence_number = 5;
  received_monotonic_time = pos 700;
  received_wall_clock_time = pos 8;
  camera_timestamp = none;
  time_metadata = received (pos 700) (pos 800);
  geometry = record { width = 2; height = 2; stride = 2 };
  pixel_format = PixelFormat.mono8;
  buffer = some small_buffer;
  incomplete = false;
}

abbrev pub small_view : FrameView
small_view = record {
  camera_id = "CAM01";
  camera_frame_number = 11;
  sequence_number = 5;
  received_monotonic_time = pos 700;
  received_wall_clock_time = pos 8;
  camera_timestamp = none;
  time_metadata = received (pos 700) (pos 800);
  geometry = record { width = 2; height = 2; stride = 2 };
  pixel_format = PixelFormat.mono8;
  buffer = small_buffer;
  incomplete = false;
}

small_packet_viewed : make_frame_view windows_clocks small_packet ≡ success small_view
unfolding make_frame_view view_with_buffer view_at view_of frame_time is_default_time
    validate_frame_time_metadata validate_correction needs_correction
small_packet_viewed = refl

make_frame_view-IsWellFormed_example :
    IsWellFormed small_view
    × (small_view.sequence_number ≡ 5)
    × (small_packet.buffer ≡ some small_view.buffer)
make_frame_view-IsWellFormed_example =
    make_frame_view-IsWellFormed windows_clocks small_packet small_view small_packet_viewed

-- Both buffers go out, one comes back and goes out again, and the pool is closed while they are lent.
abbrev pool_calls : List PoolCall
pool_calls =
    PoolCall.acquire_begins false (pos 0)
    ∷ PoolCall.acquire_begins false (pos 0)
    ∷ PoolCall.acquire_begins false (pos 0)
    ∷ PoolCall.buffer_returns 1
    ∷ PoolCall.acquire_ends false
    ∷ PoolCall.pool_closes
    ∷ PoolCall.buffer_returns 0
    ∷ []

two_buffers : new_pool 2 64 ≡ some (fresh_pool 2 64)
unfolding new_pool
two_buffers = refl

run_pool-IsAccounted_example : IsAccounted (run_pool (fresh_pool 2 64) pool_calls)
run_pool-IsAccounted_example = run_pool-IsAccounted 2 64 (fresh_pool 2 64) pool_calls two_buffers

camera_slot_index-camera_id_from_slot_example :
    (camera_slot_index "CAM04" ≡ some 3) ↔ (camera_id_from_slot 3 ≡ some "CAM04")
camera_slot_index-camera_id_from_slot_example = camera_slot_index-camera_id_from_slot 3 "CAM04"
