-- ===== src/Pipeline/Nodes.antt =====
-- src/pipeline/src/pipeline.cpp: the nodes of a chain. A node is a function from a frame to what it
-- does with it: it returns the frame, refuses it, or throws. The statistics of gray values, which are
-- floating-point numbers, are left out.
use paper_breakage_analysis.Base.{
  ℕ, ◌*◌, ◌/◌, ◌^◌, ◌%◌, ◌-◌, Bool, true, false, not, ◌&&◌, ◌||◌, Option, none, some, List, [], ◌∷◌,
  String, Severity, Error, make_error, error, warning, detail, text, ErrorDetail, length, ltb, ◌==◌,
  if◌then◌else◌, is_empty, str_eq,
}
use paper_breakage_analysis.Camera.Frame.{PixelFormat, FrameGeometry, FrameView}

pub record ProcessedFrame : Type 0 where
  pub frame : FrameView
  pub validity_checked : Bool

abbrev pub reason_details : String → List ErrorDetail
reason_details reason = if is_empty reason then [] else detail "reason" (text reason) ∷ []

abbrev pub pipeline_error : String → Severity → String → String → String → Error
pipeline_error code severity operation camera_id reason =
    record (make_error code severity "pipeline" operation false) {
      source_id = if is_empty camera_id then none else some camera_id;
      details = reason_details reason;
    }

unfoldable pub bytes_per_pixel : PixelFormat → ℕ
bytes_per_pixel PixelFormat.mono8 = 1
bytes_per_pixel PixelFormat.bayer_rg8 = 1
bytes_per_pixel PixelFormat.mono10 = 2
bytes_per_pixel PixelFormat.mono12 = 2

unfoldable pub is_invalid_frame_error : Error → Bool
is_invalid_frame_error e =
    str_eq e.business_code "CAMERA_FRAME_INCOMPLETE"
    || str_eq e.business_code "CAMERA_FRAME_FORMAT_CHANGED"
    || str_eq e.business_code "PIPELINE_FRAME_ORDER_VIOLATION"
    || str_eq e.business_code "CAMERA_CONFIG_FAILED"

pub data NodeOutcome : Type 0 where
  passed : ProcessedFrame → NodeOutcome
  refused : Error → NodeOutcome
  -- an exception with its text, and one of another type
  threw : String → NodeOutcome
  threw_unknown : NodeOutcome

abbrev pub Node : Type 0
Node = ProcessedFrame → NodeOutcome

unfoldable pub pass_through : Node
pass_through frame = NodeOutcome.passed frame

pub record ValidityCheckOptions : Type 0 where
  pub expected_geometry : Option FrameGeometry
  pub expected_pixel_format : Option PixelFormat
  pub reject_incomplete : Bool

abbrev pub same_geometry : FrameGeometry → FrameGeometry → Bool
same_geometry g h = g.width == h.width && g.height == h.height && g.stride == h.stride

abbrev pub format_number : PixelFormat → ℕ
format_number PixelFormat.mono8 = 0
format_number PixelFormat.mono10 = 1
format_number PixelFormat.mono12 = 2
format_number PixelFormat.bayer_rg8 = 3

abbrev pub differs_from_geometry : Option FrameGeometry → FrameGeometry → Bool
differs_from_geometry none g = false
differs_from_geometry (some expected) g = not (same_geometry g expected)

abbrev pub differs_from_format : Option PixelFormat → PixelFormat → Bool
differs_from_format none f = false
differs_from_format (some expected) f = not (format_number f == format_number expected)

abbrev pub u32_max : ℕ
u32_max = 2 ^ 32 - 1

abbrev pub refuse_frame : String → Severity → FrameView → String → NodeOutcome
refuse_frame code severity view reason =
    NodeOutcome.refused
      (pipeline_error code severity "pipeline.validity-check" view.camera_id reason)

-- A row is as long as its pixels, in 32-bit arithmetic.
unfoldable pub bad_stride : FrameGeometry → PixelFormat → Bool
unfolding bytes_per_pixel
bad_stride g format =
    bytes_per_pixel format == 0
    || ltb (u32_max / bytes_per_pixel format) g.width
    || ltb g.stride (g.width * bytes_per_pixel format % 2 ^ 32)

unfoldable pub validity_check : ValidityCheckOptions → Node
unfolding bad_stride
validity_check options frame =
    let view = frame.frame in
    if options.reject_incomplete && view.incomplete
    then refuse_frame "CAMERA_FRAME_INCOMPLETE" warning view "incomplete-frame"
    else if differs_from_geometry options.expected_geometry view.geometry
    then refuse_frame "CAMERA_FRAME_FORMAT_CHANGED" error view "geometry-changed"
    else if differs_from_format options.expected_pixel_format view.pixel_format
    then refuse_frame "CAMERA_FRAME_FORMAT_CHANGED" error view "pixel-format-changed"
    else if bad_stride view.geometry view.pixel_format
    then refuse_frame "CAMERA_FRAME_FORMAT_CHANGED" error view "invalid-stride"
    else NodeOutcome.passed (record frame { validity_checked = true })

-- The constructor takes 1 to 32 nodes.
unfoldable pub new_chain : List Node → Option (List Node)
new_chain nodes = if length nodes == 0 || ltb 32 (length nodes) then none else some nodes

-- The first node that does not pass the frame ends the chain.
abbrev pub and_then : NodeOutcome → Node → NodeOutcome
and_then (NodeOutcome.passed frame) next = next frame
and_then outcome next = outcome

unfoldable pub chain_process : List Node → Node
chain_process [] frame = NodeOutcome.passed frame
chain_process (n ∷ ns) frame = and_then (n frame) (chain_process ns)
