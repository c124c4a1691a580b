-- ===== src/Camera/Frame/View.antt =====
-- The views that `make_frame_view` of src/camera/src/frame.cpp returns.
use native.Mathlib.Nat.{div-mul-le_self, mul-le-mul_right}
use paper_breakage_analysis.Base.{
  ℕ, ◌*◌, ◌/◌, ◌%◌, ◌≤◌, ◌<◌, ◌≡◌, refl, sym, false, not, ◌||◌, Option, none, some, Result, success,
  failure, success-inj, if-eq-success, arith, ltb, ◌==◌, is_empty, has_value, u64_max, u64_mod,
}
use paper_breakage_analysis.Time.Model.{FrameTimeMetadata, validate_frame_time_metadata}
use paper_breakage_analysis.Camera.Frame.{
  FramePacket, FrameView, FrameBuffer, Clocks, invalid_frame, frame_time, view_of, view_at,
  view_with_buffer, make_frame_view,
}

-- An image whose rows fill its buffer, and a time that its own check accepts.
pub record IsWellFormed (v : FrameView) : Type 0 where
  pub named : is_empty v.camera_id ≡ false
  pub wide : 0 < v.geometry.width
  pub high : 0 < v.geometry.height
  pub stepped : 0 < v.geometry.stride
  pub filled : v.buffer.size ≡ v.geometry.height * v.geometry.stride
  pub timed : validate_frame_time_metadata v.time_metadata ≡ success tt

Unit_value : (r : Result (Unit {0})) → not (has_value r) ≡ false → r ≡ success tt
Unit_value (success u) e = refl
Unit_value (failure e) h = cc

view_at_lem :
    (c : Clocks) (p : FramePacket) (b : FrameBuffer) (r : Result FrameTimeMetadata) {v : FrameView}
    → view_at c p b r ≡ success v
    → (t : FrameTimeMetadata) × (v ≡ view_of c p b t)
      × (validate_frame_time_metadata t ≡ success tt)
unfolding view_at
view_at_lem c p b (failure e) h = cc
view_at_lem c p b (success t) h =
    let valid = if-eq-success (not (has_value (validate_frame_time_metadata t))) _ _ h in
    (t, sym (success-inj valid.1), Unit_value _ valid.0)

-- A product that the division admits does not wrap.
no_wrap : (h s : ℕ) → ltb (u64_max / s) h ≡ false → h * s < u64_mod
no_wrap h s e =
    let below : h ≤ u64_max / s = ground arith in
    omega (arith, div-mul-le_self u64_max s, mul-le-mul_right s below)

view_with_buffer_lem :
    (c : Clocks) (p : FramePacket) (o : Option FrameBuffer) {v : FrameView}
    → is_empty p.camera_id ≡ false
    → view_with_buffer c p o ≡ success v
    → IsWellFormed v × (v.sequence_number ≡ p.sequence_number) × (o ≡ some v.buffer)
unfolding view_with_buffer view_of
view_with_buffer_lem c p none n h = cc
view_with_buffer_lem c p (some b) n h =
    let sized =
      if-eq-success (p.geometry.width == 0 || p.geometry.height == 0 || p.geometry.stride == 0) _ _
        h in
    let short = if-eq-success (ltb (u64_max / p.geometry.stride) p.geometry.height) _ _ sized.1 in
    let full =
      if-eq-success (not (b.size == p.geometry.height * p.geometry.stride % u64_mod)) _ _ short.1 in
    let (t, e, valid) = view_at_lem c p b (frame_time c p) full.1 in
    let fits = no_wrap p.geometry.height p.geometry.stride short.0 in
    rw e (
      record {
        named = n;
        wide = ground arith;
        high = ground arith;
        stepped = ground arith;
        filled = ground arith;
        timed = valid;
      },
      refl,
      refl,
    )

-- Where `make_frame_view` returns a view, the camera is named, no side of the image is zero, the
-- buffer is exactly the height times the stride with no overflow in that product, the time metadata
-- passes its validation, and the number and the buffer are those of the packet.
pub make_frame_view-IsWellFormed :
    (clocks : Clocks) (p : FramePacket) (v : FrameView)
    → make_frame_view clocks p ≡ success v
    → IsWellFormed v × (v.sequence_number ≡ p.sequence_number) × (p.buffer ≡ some v.buffer)
unfolding make_frame_view
make_frame_view-IsWellFormed c p v h =
    let named = if-eq-success (is_empty p.camera_id) (invalid_frame "missing-camera-id") _ h in
    view_with_buffer_lem c p p.buffer named.0 named.1
