-- ===== src/Camera.antt =====
-- src/camera: the session state machine of one camera (state.hpp, state.cpp).
pub mod State
pub mod Reconnect
pub mod Session
mod Examples
pub mod Frame
pub mod Acquisition
pub mod FramePool
pub mod FrameExamples
