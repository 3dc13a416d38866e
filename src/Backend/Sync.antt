-- ===== src/Backend/Sync.antt =====
-- src/backend/sync_backend.cpp.
pub mod Agree
use io_uring_async_load_proc.Prelude.{ℕ, Option, none, some, List, if◌then◌else◌, ◌==◌}
use io_uring_async_load_proc.Exception.{Result, ok, throw, logic_error, system_error}
use io_uring_async_load_proc.Util.FileIo
use io_uring_async_load_proc.Util.FileIo.{FileSystem, Answer}

-- `SyncBackend::read_at`: how the body of the task ends, and what was put into the buffer. It does
-- not suspend.
unfoldable pub read_at :
    (fs : FileSystem) → List Answer → fs.File → ℕ → ℕ → Option (Result ℕ × List ℕ × List Answer)
read_at fs answers file byte_count offset =
    elim (FileIo.read_at fs answers file byte_count offset) [
      | none ↦ none
      | some (result, bytes, rest) ↦ some (
        if result.error_number == 0
            then ok result.bytes_read
            else throw (system_error result.error_number),
        bytes,
        rest,
      )
    ]

unfoldable pub wait_one : Result (Unit {0})
wait_one = throw logic_error
