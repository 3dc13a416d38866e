-- ===== src/Pipeline/Executor/Workers.antt =====
-- The threads of a run of src/pipeline/pipeline_executor.cpp.
pub mod State
pub mod Blocks
pub mod Loops
pub mod Queues
pub mod Moves
pub mod Pieces
pub mod Steps
pub mod Invariant
pub mod Waits
pub mod Progress
pub mod Same
pub mod Refine
pub mod Measure
pub mod Termination
pub mod Completion
