-- ===== src/Event/KeyFrameSelection.antt =====
-- src/event/include/paperbreak/event/key_frame.hpp and src/event/src/key_frame.cpp: the key frames that
-- were selected for an event, and what makes a selection valid.
use paper_breakage_analysis.Base.{
  ℕ, ◌+◌, Bool, true, false, not, ◌&&◌, ◌||◌, List, [], ◌∷◌, String, length, ltb, ◌==◌,
  if◌then◌else◌, is_empty, str_eq,
}
use paper_breakage_analysis.Base.Integers.{ℤ, pos, negsuc}
use paper_breakage_analysis.Camera.Frame.{FrameGeometry, FrameView, PixelFormat}

pub data KeyFrameReason : Type 0 where
  normal_reference earliest_abnormal candidate_trigger maximum_change highest_confidence
        formal_confirmation post_event_state :
      KeyFrameReason

-- `static_cast<int>(reason)`
abbrev pub reason_number : KeyFrameReason → ℕ
reason_number KeyFrameReason.normal_reference = 0
reason_number KeyFrameReason.earliest_abnormal = 1
reason_number KeyFrameReason.candidate_trigger = 2
reason_number KeyFrameReason.maximum_change = 3
reason_number KeyFrameReason.highest_confidence = 4
reason_number KeyFrameReason.formal_confirmation = 5
reason_number KeyFrameReason.post_event_state = 6

abbrev pub key_frame_reason_count : ℕ
key_frame_reason_count = 7

pub record KeyFrameDescriptor : Type 0 where
  pub camera_id : String
  pub camera_frame_number : ℕ
  pub sequence_number : ℕ
  pub monotonic_time : ℤ
  pub wall_clock_time : ℤ
  pub geometry : FrameGeometry
  pub pixel_format : PixelFormat
  pub reasons : List KeyFrameReason

pub record SelectedKeyFrame : Type 0 where
  pub descriptor : KeyFrameDescriptor
  pub frame : FrameView

pub record KeyFrameSelectionResult : Type 0 where
  pub event_id : String
  pub frames : List SelectedKeyFrame
  pub missing_reasons : List KeyFrameReason
  pub complete : Bool

abbrev pub all_of {ℓ} : {A : Type ℓ} → (A → Bool) → List A → Bool
all_of f [] = true
all_of f (a ∷ rest) = f a && all_of f rest

abbrev pub count_if {ℓ} : {A : Type ℓ} → (A → Bool) → List A → ℕ
count_if f [] = 0
count_if f (a ∷ rest) = let n = count_if f rest in if f a then n + 1 else n

abbrev pub same_time : ℤ → ℤ → Bool
same_time (pos a) (pos b) = a == b
same_time (negsuc a) (negsuc b) = a == b
same_time _ _ = false

abbrev pub same_geometry : FrameGeometry → FrameGeometry → Bool
same_geometry a b = (a.width == b.width) && (a.height == b.height) && (a.stride == b.stride)

abbrev pub same_format : PixelFormat → PixelFormat → Bool
same_format PixelFormat.mono8 PixelFormat.mono8 = true
same_format PixelFormat.mono10 PixelFormat.mono10 = true
same_format PixelFormat.mono12 PixelFormat.mono12 = true
same_format PixelFormat.bayer_rg8 PixelFormat.bayer_rg8 = true
same_format _ _ = false

abbrev pub same_reason : KeyFrameReason → KeyFrameReason → Bool
same_reason a b = reason_number a == reason_number b

-- A value of the enumeration is always one of its reasons, which the code tests as well.
unfoldable pub descriptor_matches : SelectedKeyFrame → Bool
descriptor_matches s =
    not (is_empty s.descriptor.camera_id)
    && str_eq s.descriptor.camera_id s.frame.camera_id
    && (s.descriptor.camera_frame_number == s.frame.camera_frame_number)
    && (s.descriptor.sequence_number == s.frame.sequence_number)
    && same_time s.descriptor.monotonic_time s.frame.received_monotonic_time
    && same_time s.descriptor.wall_clock_time s.frame.received_wall_clock_time
    && same_geometry s.descriptor.geometry s.frame.geometry
    && same_format s.descriptor.pixel_format s.frame.pixel_format
    && not (length s.descriptor.reasons == 0)
    && not (ltb key_frame_reason_count (length s.descriptor.reasons))
    && all_of (λ reason. count_if (same_reason reason) s.descriptor.reasons == 1)
        s.descriptor.reasons

unfoldable pub same_frame : SelectedKeyFrame → SelectedKeyFrame → Bool
same_frame a b =
    str_eq b.descriptor.camera_id a.descriptor.camera_id
    && (b.descriptor.sequence_number == a.descriptor.sequence_number)

unfoldable pub is_invalid_selection : KeyFrameSelectionResult → Bool
unfolding descriptor_matches same_frame
is_invalid_selection s =
    is_empty s.event_id
    || (length s.frames == 0)
    || ltb key_frame_reason_count (length s.frames)
    || not (all_of descriptor_matches s.frames)
    || not (all_of (λ frame. count_if (same_frame frame) s.frames == 1) s.frames)
