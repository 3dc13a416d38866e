-- ===== src/Util/FileIo/Calm.antt =====
-- The loops of src/util/file_io.cpp when no call fails but for an interruption.
use io_uring_async_load_proc.Prelude.{
  ℕ, ◌+◌, ◌-◌, ◌%◌, ◌^◌, ◌≡◌, ◌≢◌, some, List, [], ◌∷◌, length, take, drop, min, arith, All,
}
use io_uring_async_load_proc.Util.Errno.{eintr}
use io_uring_async_load_proc.Util.FileIo.{
  FileSystem, Answer, transfers, failed, ReadAtResult, WriteAtResult, read_at, write_loop,
  write_all_at,
}

-- Answers that transfer something, or are interruptions.
abbrev pub Calm : List Answer → Type 0
Calm = All (λ a. elim a [ failed e ↦ e ≡ eintr | transfers n ↦ n ≢ 0 ])

module _ (fs : FileSystem) where
  pub read_at_no_error :
      (answers : List Answer) (file : fs.File) (byte_count offset : ℕ)
      → Calm answers
      → (r : ReadAtResult) (bytes : List ℕ) (rest : List Answer)
      → read_at fs answers file byte_count offset ≡ some (r, bytes, rest)
      → r.error_number ≡ 0
  unfolding read_at
  read_at_no_error [] file byte_count offset calm r bytes rest h = cc
  read_at_no_error (transfers n ∷ answers) file byte_count offset calm r bytes rest h = ground arith
  read_at_no_error (failed e ∷ answers) file byte_count offset calm r bytes rest h =
      let again = read_at_no_error answers file byte_count offset calm.1 r bytes rest in
      ground (arith, calm.0, again)

  write_loop_no_error :
      (answers : List Answer) (file : fs.File) (buffer : List ℕ) (offset written : ℕ)
      → Calm answers
      → (r : WriteAtResult) (end : fs.File) (rest : List Answer)
      → write_loop fs answers file buffer offset written ≡ some (r, end, rest)
      → r.error_number ≡ 0
  unfolding write_loop
  write_loop_no_error [] file buffer offset written calm r end rest h = ground arith
  write_loop_no_error (failed e ∷ answers) file buffer offset written calm r end rest h =
      let again = write_loop_no_error answers file buffer offset written calm.1 r end rest in
      ground (arith, calm.0, again)
  write_loop_no_error (transfers n ∷ answers) file buffer offset written calm r end rest h =
      let m = min n (length buffer - written) in
      let place = (offset + written) % 2 ^ 64 in
      let later =
        write_loop_no_error answers (fs.store file place (take m (drop written buffer))) buffer
          offset (written + m) calm.1 r end rest in
      ground (arith, calm.0, later)

  -- A write without errors has no error.
  pub write_all_at_no_error :
      (answers : List Answer) (file : fs.File) (buffer : List ℕ) (offset : ℕ)
      → Calm answers
      → (r : WriteAtResult) (end : fs.File) (rest : List Answer)
      → write_all_at fs answers file buffer offset ≡ some (r, end, rest)
      → r.error_number ≡ 0
  unfolding write_all_at
  write_all_at_no_error answers file buffer offset calm r end rest h =
      write_loop_no_error answers file buffer offset 0 calm r end rest h
