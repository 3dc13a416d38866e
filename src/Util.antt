-- ===== src/Util.antt =====
-- src/util: descriptors that close themselves, and system calls that are retried and completed.
pub mod Errno
pub mod FdGuard
pub mod FileIo
mod Tests
