-- ===== src/Util/FileIo.antt =====
-- src/util/file_io.cpp. The operating system answers each system call in turn: a run is given the
-- list of its answers, and `none` means that the list ended while a call was still to be made.
-- A count in an answer to `pread` or `pwrite` is cut to the count that was asked for, since neither
-- call transfers more.
pub mod WriteAll
pub mod Retry
pub mod ReadPart
pub mod Memory
pub mod Calm
use io_uring_async_load_proc.Prelude.{
  ℕ, zero, suc, ◌+◌, ◌-◌, ◌%◌, ◌^◌, ◌≡◌, min, Option, none, some, List, [], ◌∷◌, ◌++◌, ltb, ◌==◌,
  if◌then◌else◌, length, take, drop,
}
use io_uring_async_load_proc.Util.Errno.{eintr, eio}
use io_uring_async_load_proc.Util.FdGuard.{FdGuard, new_guard}

-- Files as the operating system keeps them. Writing puts bytes at an offset, and two writes one
-- behind the other are one write; reading gives at most as many bytes as were asked for.
pub record FileSystem : Type 1 where
  pub File : Type 0
  pub store : File → ℕ → List ℕ → File
  pub load : File → ℕ → ℕ → List ℕ
  pub store_nothing : (f : File) (offset : ℕ) → store f offset [] ≡ f
  pub store_behind :
      (f : File) (offset : ℕ) (xs ys : List ℕ)
      → store (store f offset xs) (offset + length xs) ys ≡ store f offset (xs ++ ys)

-- A system call transfers bytes, or fails with an error number.
pub data Answer : Type 0 where
  transfers failed : ℕ → Answer

pub record OpenFileResult : Type 0 where
  pub fd : FdGuard
  pub error_number : ℕ

pub record ReadAtResult : Type 0 where
  pub bytes_read : ℕ
  pub error_number : ℕ

pub record WriteAtResult : Type 0 where
  pub bytes_written : ℕ
  pub error_number : ℕ

-- `open` gives a descriptor or an error number; it is not retried.
unfoldable pub open_read_only : Answer → OpenFileResult
unfolding new_guard
open_read_only (failed e) = record { fd = new_guard none; error_number = e }
open_read_only (transfers fd) = record { fd = new_guard (some fd); error_number = 0 }

-- `fsync`: the error number, 0 for success.
unfoldable pub fsync_fd : List Answer → Option (ℕ × List Answer)
fsync_fd [] = none
fsync_fd (transfers n ∷ answers) = some (0, answers)
fsync_fd (failed e ∷ answers) =
    let retried = fsync_fd answers in if e == eintr then retried else some (e, answers)

module _ (fs : FileSystem) where
  open fs use {File, store, load}

  -- The result, and what was put into the buffer.
  unfoldable pub read_at : List Answer → File → ℕ → ℕ → Option (ReadAtResult × List ℕ × List Answer)
  read_at [] file byte_count offset = none
  read_at (transfers n ∷ answers) file byte_count offset =
      let bytes = take (min n byte_count) (load file offset byte_count) in
      some (record { bytes_read = length bytes; error_number = 0 }, bytes, answers)
  read_at (failed e ∷ answers) file byte_count offset =
      let retried = read_at answers file byte_count offset in
      if e == eintr
      then retried
      else some (record { bytes_read = 0; error_number = e }, [], answers)

  -- The loop, with `written_count` bytes of the buffer written. An interrupted call is made again
  -- with the same arguments, which are those of the next round.
  unfoldable pub write_loop :
      List Answer → File → List ℕ → ℕ → ℕ → Option (WriteAtResult × File × List Answer)
  write_loop [] file buffer offset written_count =
      if ltb written_count (length buffer)
      then none
      else some (record { bytes_written = written_count; error_number = 0 }, file, [])
  write_loop (answer ∷ answers) file buffer offset written_count =
      let remaining = length buffer - written_count in
      let current_offset = (offset + written_count) % 2 ^ 64 in
      let round : Option (WriteAtResult × File × List Answer) = elim answer [
        | failed e ↦
            let retried = write_loop answers file buffer offset written_count in
            if e == eintr
            then retried
            else some (record { bytes_written = written_count; error_number = e }, file, answers)
        | transfers n ↦
            let bytes_written = min n remaining in
            let rest =
              write_loop answers
                (store file current_offset (take bytes_written (drop written_count buffer))) buffer
                offset (written_count + bytes_written) in
            if bytes_written == 0
            then some (record { bytes_written = written_count; error_number = eio }, file, answers)
            else rest
      ] in
      if ltb written_count (length buffer)
      then round
      else some (record { bytes_written = written_count; error_number = 0 }, file, answer ∷ answers)

  unfoldable pub write_all_at :
      List Answer → File → List ℕ → ℕ → Option (WriteAtResult × File × List Answer)
  unfolding write_loop
  write_all_at answers file buffer offset = write_loop answers file buffer offset 0
