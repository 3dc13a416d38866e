-- ===== src/Util/FileIo/WriteAll.antt =====
-- `write_all_at` writes all of a buffer, or tells how much of it was written before an error.
use io_uring_async_load_proc.Prelude.{
  ℕ, suc, ◌+◌, ◌-◌, ◌%◌, ◌^◌, ◌≤◌, ◌<◌, ◌≡◌, ◌≢◌, refl, sym, min, Option, none, some, List, [], ◌∷◌,
  arith, ◌==◌, if◌then◌else◌, length, take, drop, All, dec_lt, ℕ_discrete, length-take, take-add,
}
use io_uring_async_load_proc.Util.Errno.{eintr, eio}
use io_uring_async_load_proc.Util.FileIo.{
  FileSystem, Answer, transfers, failed, WriteAtResult, write_loop, write_all_at,
}

-- A failed call has an error number.
abbrev pub Sane : List Answer → Type 0
Sane = All (λ a. elim a [ failed e ↦ e ≢ 0 | transfers n ↦ Unit {0} ])

-- The answers that are no interruption.
abbrev pub effective : List Answer → ℕ
effective [] = 0
effective (transfers n ∷ answers) = suc (effective answers)
effective (failed e ∷ answers) = (if e == eintr then 0 else 1) + effective answers

module _ (fs : FileSystem) where
  open fs use {File, store, store_nothing, store_behind}

  abbrev Loop : Type 0
  Loop = Option (WriteAtResult × File × List Answer)

  abbrev stop : ℕ → ℕ → File → List Answer → Loop
  stop written e file answers =
      some (record { bytes_written = written; error_number = e }, file, answers)

  module _ (file : File) (buffer : List ℕ) (offset written : ℕ) where
    loop_end :
        (answers : List Answer)
        → length buffer ≤ written
        → write_loop fs answers file buffer offset written ≡ stop written 0 file answers
    unfolding write_loop
    loop_end [] h = ground arith
    loop_end (a ∷ answers) h = ground arith

    module _ (more : written < length buffer) (answers : List Answer) where
      loop_retry :
          (e : ℕ)
          → e ≡ eintr
          → write_loop fs (failed e ∷ answers) file buffer offset written
            ≡ write_loop fs answers file buffer offset written
      unfolding write_loop
      loop_retry e h = ground arith

      loop_fail :
          (e : ℕ)
          → e ≢ eintr
          → write_loop fs (failed e ∷ answers) file buffer offset written
            ≡ stop written e file answers
      unfolding write_loop
      loop_fail e h = ground arith

      loop_zero :
          (n : ℕ)
          → min n (length buffer - written) ≡ 0
          → write_loop fs (transfers n ∷ answers) file buffer offset written
            ≡ stop written eio file answers
      unfolding write_loop
      loop_zero n h = ground arith

      loop_round :
          (n m : ℕ)
          → m ≡ min n (length buffer - written)
          → m ≢ 0
          → write_loop fs (transfers n ∷ answers) file buffer offset written
            ≡ write_loop fs answers
                (store file ((offset + written) % 2 ^ 64) (take m (drop written buffer)))
                buffer
                offset
                (written + m)
      unfolding write_loop
      loop_round n m e h = ground arith

  -- What a run of the loop leaves behind.
  pub record Written (start : File) (buffer : List ℕ) (offset : ℕ) (r : WriteAtResult) (end : File)
      : Type 0 where
    pub stored : end ≡ store start offset (take r.bytes_written buffer)
    pub complete : r.error_number ≡ 0 → r.bytes_written ≡ length buffer
    pub cut_short : r.error_number ≢ 0 → r.bytes_written < length buffer

  -- The result of a run, as what is left of the loop from `written` on: it is there, and it is right.
  abbrev Finishes : Loop → File → List ℕ → ℕ → Type 0
  Finishes l start buffer offset =
      (r : WriteAtResult) × (end : File) × (rest : List Answer) × (l ≡ some (r, end, rest))
      × Written start buffer offset r end

  module _ (start : File) (buffer : List ℕ) (offset : ℕ)
      (fits : offset + length buffer < 2 ^ 64) where
    finish :
        (written e : ℕ) (file : File) (answers : List Answer)
        → file ≡ store start offset (take written buffer)
        → (e ≡ 0 → written ≡ length buffer)
        → (e ≢ 0 → written < length buffer)
        → Finishes (stop written e file answers) start buffer offset
    finish written e file answers s c p =
        (_, file, answers, refl, record { stored = s; complete = c; cut_short = p })

    -- The next part goes where the last one ended.
    round_stored :
        (written m : ℕ) (file : File)
        → written ≤ length buffer
        → file ≡ store start offset (take written buffer)
        → store file ((offset + written) % 2 ^ 64) (take m (drop written buffer))
          ≡ store start offset (take (written + m) buffer)
    round_stored written m file h s =
        let size : length (take written buffer) ≡ written =
          omega (arith, length-take written buffer) in
        let place : (offset + written) % 2 ^ 64 ≡ offset + length (take written buffer) =
          omega (arith, size) in
        rw (place, s, take-add written m buffer)
          (store_behind start offset (take written buffer) (take m (drop written buffer)))

    write_loop-Finishes :
        (answers : List Answer) (file : File) (written : ℕ)
        → written ≤ length buffer
        → file ≡ store start offset (take written buffer)
        → Sane answers
        → length buffer - written ≤ effective answers
        → Finishes (write_loop fs answers file buffer offset written) start buffer offset
    write_loop-Finishes [] file written h s sane enough =
        rw (loop_end file buffer offset written [] (omega arith))
          (finish written 0 file [] s (λ _. omega arith) (λ ne. absurd (ne refl)))
    write_loop-Finishes (failed e ∷ answers) file written h s sane enough =
        elim (dec_lt written (length buffer)) [
          | no end ↦
              rw (loop_end file buffer offset written (failed e ∷ answers) (omega arith))
                (finish written 0 file _ s (λ _. omega arith) (λ ne. absurd (ne refl)))
          | yes more ↦ elim (ℕ_discrete e eintr) [
            | yes again ↦
                rw (loop_retry file buffer offset written more answers e again)
                  (write_loop-Finishes answers file written h s sane.1 (ground arith))
            | no other ↦
                rw (loop_fail file buffer offset written more answers e other)
                  (finish written e file answers s (λ z. absurd (sane.0 z)) (λ _. more))
          ]
        ]
    write_loop-Finishes (transfers n ∷ answers) file written h s sane enough =
        elim (dec_lt written (length buffer)) [
          | no end ↦
              rw (loop_end file buffer offset written (transfers n ∷ answers) (omega arith))
                (finish written 0 file _ s (λ _. omega arith) (λ ne. absurd (ne refl)))
          | yes more ↦ elim (ℕ_discrete (min n (length buffer - written)) 0) [
            | yes none_written ↦
                rw (loop_zero file buffer offset written more answers n none_written)
                  (finish written eio file answers s (λ z. absurd (omega arith)) (λ _. more))
            | no some_written ↦
                let m = min n (length buffer - written) in
                rw (loop_round file buffer offset written more answers n m refl some_written) (
                  write_loop-Finishes answers _ (written + m) (omega arith)
                    (round_stored written m file h s) sane.1 (omega arith))
          ]
        ]

  -- `write_all_at` returns as soon as as many calls of `pwrite` as the buffer has bytes were not
  -- interrupted, if no offset passes 2 ^ 64. The file then holds, at the offset, as much of the
  -- buffer as the result says and is otherwise as it was; that is all of the buffer if the error
  -- number is 0, and less if not.
  pub write_all_at-Written :
      (answers : List Answer) (file : File) (buffer : List ℕ) (offset : ℕ)
      → offset + length buffer < 2 ^ 64
      → Sane answers
      → length buffer ≤ effective answers
      → (r : WriteAtResult) × (end : File) × (rest : List Answer) × (write_all_at fs answers file
            buffer offset
          ≡ some (r, end, rest))
        × Written file buffer offset r end
  unfolding write_all_at
  write_all_at-Written answers file buffer offset fits sane enough =
      write_loop-Finishes file buffer offset fits answers file 0 (omega arith)
        (sym (store_nothing file offset)) sane (omega arith)

  write_loop_returns :
      (answers : List Answer) (file : File) (buffer : List ℕ) (offset written : ℕ)
      → length buffer - written ≤ effective answers
      → write_loop fs answers file buffer offset written ≢ none
  unfolding write_loop
  write_loop_returns [] file buffer offset written enough = ground arith
  write_loop_returns (failed e ∷ answers) file buffer offset written enough =
      ground (arith, write_loop_returns answers file buffer offset written)
  write_loop_returns (transfers n ∷ answers) file buffer offset written enough =
      let m = min n (length buffer - written) in
      let place = (offset + written) % 2 ^ 64 in
      ground (
        arith,
        write_loop_returns answers (store file place (take m (drop written buffer))) buffer offset
            (written + m),
      )

  -- With as many answers as there are bytes, `write_all_at` returns.
  pub write_all_at_returns :
      (answers : List Answer) (file : File) (buffer : List ℕ) (offset : ℕ)
      → length buffer ≤ effective answers
      → write_all_at fs answers file buffer offset ≢ none
  unfolding write_all_at
  write_all_at_returns answers file buffer offset enough =
      write_loop_returns answers file buffer offset 0 (omega arith)
