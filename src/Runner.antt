-- ===== src/Runner.antt =====
-- crates/runner/src/runner.rs, part by part.
pub mod Received
pub mod Requeue
pub mod StopOn
pub mod Dispatch
pub mod Chains
pub mod Components
pub mod Chunks
pub mod Queue
pub mod Run
