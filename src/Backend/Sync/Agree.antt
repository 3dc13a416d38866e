-- ===== src/Backend/Sync/Agree.antt =====
-- The result of a read does not depend on whether src/backend/sync_backend.cpp or
-- src/backend/thread_pool_backend.cpp makes it.
use io_uring_async_load_proc.Prelude.{
  ℕ, ◌≡◌, ◌≤◌, ◌<◌, ◌^◌, Option, some, List, [], ◌∷◌, ◌==◌, not, ◌&&◌, length-take, min, arith,
  Bool-cases, inl, inr,
}
use io_uring_async_load_proc.Exception.{ok, throw_if, invalid_argument, >>=-eq-ok}
use io_uring_async_load_proc.Util.Errno.{eintr}
use io_uring_async_load_proc.Util.FileIo
use io_uring_async_load_proc.Util.FileIo.{FileSystem, Answer, transfers, failed, ReadAtResult}
use io_uring_async_load_proc.Coroutine.Uring.{count_of, is_null}
use io_uring_async_load_proc.Backend.ThreadPool.{check_read, completion_of}
use io_uring_async_load_proc.Backend.Sync.{read_at}

module _ (fs : FileSystem) where
  read_at-le :
      (answers : List Answer) (file : fs.File) (byte_count offset : ℕ) (result : ReadAtResult)
      (bytes : List ℕ) (rest : List Answer)
      → FileIo.read_at fs answers file byte_count offset ≡ some (result, bytes, rest)
      → result.bytes_read ≤ byte_count
  unfolding FileIo.read_at
  read_at-le [] file byte_count offset result bytes rest h = absurd (ground arith)
  read_at-le (transfers n ∷ answers) file byte_count offset result bytes rest h =
      ground (arith, length-take (min n byte_count) (fs.load file offset byte_count))
  read_at-le (failed e ∷ answers) file byte_count offset result bytes rest h =
      elim (Bool-cases (e == eintr)) [
        | inl again ↦ read_at-le answers file byte_count offset result bytes rest (ground arith)
        | inr fails ↦ ground arith
      ]

  -- A read that the thread pool takes on gives its awaiter, on the same answers of the operating
  -- system, the count or the error and the bytes that `SyncBackend::read_at` gives, and its count
  -- fits the 31 bits that a completion has for it.
  pub read_at-agrees :
      (buffer : Option ℕ) (answers rest : List Answer) (file : fs.File) (byte_count offset : ℕ)
      (result : ReadAtResult) (bytes : List ℕ)
      → check_read buffer byte_count ≡ ok tt
      → FileIo.read_at fs answers file byte_count offset ≡ some (result, bytes, rest)
      → (read_at fs answers file byte_count offset
          ≡ some (count_of (completion_of result), bytes, rest))
        × (result.bytes_read < 2 ^ 31)
  unfolding read_at check_read completion_of count_of
  read_at-agrees buffer answers rest file byte_count offset result bytes checked h =
      let (_, _, sized) =
        >>=-eq-ok (throw_if (is_null buffer && not (byte_count == 0)) invalid_argument) _ checked in
      let le = read_at-le answers file byte_count offset result bytes rest h in
      (ground arith, ground (arith, sized, le))
