-- ===== src/Event.antt =====
-- src/event: the frame history of one camera, the candidate events that hold on to it, and the encoding
-- of their key frames.
mod Examples
mod CandidateExamples
mod KeyFrameExamples
pub mod Ring
pub mod Uuid
pub mod Candidate
pub mod KeyFrameSelection
pub mod KeyFrame
