-- ===== src/Pipeline.antt =====
-- src/pipeline and include/pipeline: the queue, the work items, the stages and the executor.
pub mod Channel
pub mod SpscQueue
pub mod Stages
pub mod WorkItem
pub mod StagePipeline
pub mod Output
pub mod Executor
mod Tests
