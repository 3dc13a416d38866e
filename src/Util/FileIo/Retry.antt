-- ===== src/Util/FileIo/Retry.antt =====
-- Interrupted calls are made again, and leave no trace in the result.
use io_uring_async_load_proc.Prelude.{
  ℕ, zero, suc, ◌≤◌, ◌≡◌, ◌≢◌, refl, min, some, List, [], ◌∷◌, ◌++◌, arith, length, take, replicate,
  length-take,
}
use io_uring_async_load_proc.Util.Errno.{eintr}
use io_uring_async_load_proc.Util.FileIo.{
  FileSystem, Answer, transfers, failed, ReadAtResult, fsync_fd, read_at,
}

-- The first answer that is no interruption decides `fsync_fd`: 0 for success, else its error number.
-- What it leaves of the list is what stands behind that answer.
pub fsync_fd-retries :
    (k : ℕ) (a : Answer) (answers : List Answer)
    → a ≢ failed eintr
    → fsync_fd (replicate k (failed eintr) ++ (a ∷ answers))
      ≡ some (elim a [ transfers _ ↦ 0 | failed e ↦ e ], answers)
unfolding fsync_fd
fsync_fd-retries zero (transfers n) answers h = refl
fsync_fd-retries zero (failed e) answers h = ground arith
fsync_fd-retries (suc k) a answers h = fsync_fd-retries k a answers h

module _ (fs : FileSystem) where
  open fs use {File, load}

  -- What the first answer to `pread` that is no interruption makes of the result.
  abbrev pub answered : Answer → File → ℕ → ℕ → ReadAtResult × List ℕ
  answered (transfers n) file byte_count offset =
      let bytes = take (min n byte_count) (load file offset byte_count) in
      (record { bytes_read = length bytes; error_number = 0 }, bytes)
  answered (failed e) file byte_count offset = (record { bytes_read = 0; error_number = e }, [])

  -- The first answer that is no interruption decides `read_at`: a transfer gives as many bytes as
  -- the file has there, no more than were asked for or than the answer says, and an error gives its
  -- number and no bytes.
  pub read_at-retries :
      (k : ℕ) (a : Answer) (answers : List Answer) (file : File) (byte_count offset : ℕ)
      → a ≢ failed eintr
      → (read_at fs (replicate k (failed eintr) ++ (a ∷ answers)) file byte_count offset
          ≡ some (
            (answered a file byte_count offset).0,
            (answered a file byte_count offset).1,
            answers,
          ))
        × ((answered a file byte_count offset).0.bytes_read ≤ byte_count)
  unfolding read_at
  read_at-retries zero (transfers n) answers file byte_count offset h =
      (refl, omega (arith, length-take (min n byte_count) (load file offset byte_count)))
  read_at-retries zero (failed e) answers file byte_count offset h = (ground arith, omega arith)
  read_at-retries (suc k) a answers file byte_count offset h =
      read_at-retries k a answers file byte_count offset h
