-- ===== src/Pipeline.antt =====
-- src/pipeline: the preprocessing of the frames of a camera on their way to the algorithm.
pub mod Nodes
pub mod Processor
pub mod Runtime
mod Examples
