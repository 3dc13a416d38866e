-- ===== src/Coroutine.antt =====
-- include/coroutine and src/coroutine: tasks and the requests that resume them.
pub mod CompletionRequest
pub mod Task
pub mod Uring
mod Tests
