-- ===== src/Camera/State.antt =====
-- src/camera/include/paperbreak/camera/state.hpp and src/camera/src/state.cpp: the states of a
-- camera session and the transitions between them.
use paper_breakage_analysis.Base.{ℕ, Bool, false, ◌||◌, ◌==◌, if◌then◌else◌}

pub data CameraState : Type 0 where
  disabled disconnected connecting connected starting streaming recovering faulted : CameraState

-- The value of the enumerator, by which the code compares states.
abbrev pub state_index : CameraState → ℕ
state_index disabled = 0
state_index disconnected = 1
state_index connecting = 2
state_index connected = 3
state_index starting = 4
state_index streaming = 5
state_index recovering = 6
state_index faulted = 7

infix 50 ◌is◌
abbrev pub ◌is◌ : CameraState → CameraState → Bool
a is b = state_index a == state_index b

-- The `switch` of `is_camera_transition_allowed`.
abbrev pub allowed_from : CameraState → CameraState → Bool
allowed_from disabled to = to is disconnected
allowed_from disconnected to = to is disabled || to is connecting
allowed_from connecting to =
    to is disabled || to is disconnected || to is connected || to is recovering || to is faulted
allowed_from connected to =
    to is disabled || to is disconnected || to is starting || to is recovering || to is faulted
allowed_from starting to =
    to is disabled || to is disconnected || to is streaming || to is recovering || to is faulted
allowed_from streaming to =
    to is disabled || to is disconnected || to is recovering || to is faulted
allowed_from recovering to =
    to is disabled || to is disconnected || to is connecting || to is faulted
allowed_from faulted to = to is disabled || to is disconnected

unfoldable pub is_camera_transition_allowed : CameraState → CameraState → Bool
is_camera_transition_allowed from to = if from is to then false else allowed_from from to
