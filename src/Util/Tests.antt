-- ===== src/Util/Tests.antt =====
-- Runs of the code of src/util on concrete inputs, and instances of its theorems.
use io_uring_async_load_proc.Prelude.{ℕ, ◌≡◌, refl, some, List, [], ◌∷◌, arith}
use io_uring_async_load_proc.Util.Errno.{eintr, eio}
use io_uring_async_load_proc.Util.FileIo.{Answer, transfers, failed, WriteAtResult, write_all_at}
use io_uring_async_load_proc.Util.FileIo.Memory.{memory}
use io_uring_async_load_proc.Util.FileIo.WriteAll.{Written, write_all_at-Written}

-- An interrupted call, then two short ones.
abbrev short_writes : List Answer
short_writes = failed eintr ∷ transfers 2 ∷ transfers 5 ∷ transfers 9 ∷ []

short_writes_written :
    write_all_at memory short_writes [] (7 ∷ 8 ∷ 9 ∷ []) 4
    ≡ some (
      record { bytes_written = 3; error_number = 0 },
      (6, 9) ∷ (5, 8) ∷ (4, 7) ∷ [],
      transfers 9 ∷ [],
    )
unfolding write_all_at
short_writes_written = refl

no_progress :
    write_all_at memory (transfers 1 ∷ transfers 0 ∷ []) [] (7 ∷ 8 ∷ []) 0
    ≡ some (record { bytes_written = 1; error_number = eio }, (0, 7) ∷ [], [])
unfolding write_all_at
no_progress = refl

write_all_at-Written_example :
    (r : WriteAtResult) × (end : List (ℕ × ℕ)) × (rest : List Answer) × (write_all_at memory
        short_writes []
        (7 ∷ 8 ∷ 9 ∷ [])
        4
      ≡ some (r, end, rest))
    × Written memory [] (7 ∷ 8 ∷ 9 ∷ []) 4 r end
write_all_at-Written_example =
    write_all_at-Written memory short_writes [] (7 ∷ 8 ∷ 9 ∷ []) 4 (omega arith)
      ((λ e. absurd (omega (arith, e))), (tt, (tt, (tt, tt)))) (omega arith)
