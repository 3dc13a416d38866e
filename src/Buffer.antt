-- ===== src/Buffer.antt =====
-- src/buffer: aligned allocations, the pool that owns them and the handles that lend them.
pub mod Aligned
pub mod Pool
pub mod Handles
mod Tests
