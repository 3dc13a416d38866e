-- ===== src/Backend.antt =====
-- include/backend and src/backend: the ways to read.
pub mod Factory
pub mod Sync
pub mod ThreadPool
mod Tests
