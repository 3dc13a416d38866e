-- ===== src/Baseline/Tests.antt =====
-- A run of src/baseline/sync_preprocess_baseline.cpp on a concrete input, and an instance of its
-- theorem.
use io_uring_async_load_proc.Prelude.{
  ℕ, zero, suc, ◌≤◌, ◌<◌, ◌≡◌, refl, true, some, List, [], ◌∷◌, map, replicate, arith,
}
use io_uring_async_load_proc.Util.Errno.{eintr}
use io_uring_async_load_proc.Util.FileIo
use io_uring_async_load_proc.Util.FileIo.{Answer, transfers, failed}
use io_uring_async_load_proc.Util.FileIo.Memory.{linear}
use io_uring_async_load_proc.Util.FileIo.WriteAll.{effective, Sane}
use io_uring_async_load_proc.Util.FileIo.ReadPart.{Reads}
use io_uring_async_load_proc.Baseline.{
  SyncPreprocessResult, flip_case, run_sync_preprocess_baseline,
}
use io_uring_async_load_proc.Baseline.Blocks.{Serves}
use io_uring_async_load_proc.Baseline.Copies.{run_sync_preprocess_baseline-Copies}

-- `aB[z` and a byte that is no ASCII.
abbrev text : List ℕ
text = 97 ∷ 66 ∷ 91 ∷ 122 ∷ 200 ∷ []

-- Every read but the first is interrupted once, and a write takes one byte at a time.
abbrev preads : ℕ → List Answer
preads zero = transfers 3 ∷ []
preads (suc i) = failed eintr ∷ transfers 3 ∷ []

preads-Reads : (i : ℕ) → Reads (preads i)
preads-Reads zero = (λ h. absurd (omega arith), tt)
preads-Reads (suc i) = (λ h. absurd (omega arith), (λ h. absurd (omega arith), tt))

preads_end : (i : ℕ) → 0 < effective (preads i)
preads_end zero = omega arith
preads_end (suc i) = omega arith

abbrev pwrites : ℕ → ℕ → List Answer
pwrites i size = replicate size (transfers 1)

pwrites-Sane : (n : ℕ) → Sane (replicate n (transfers 1))
pwrites-Sane zero = tt
pwrites-Sane (suc n) = (tt, pwrites-Sane n)

pwrites_end : (n : ℕ) → n ≤ effective (replicate n (transfers 1))
pwrites_end zero = omega arith
pwrites_end (suc n) = omega (arith, pwrites_end n)

serves : Serves linear preads pwrites (transfers 0 ∷ []) 4 text [] text
serves = record {
  loads = λ o k. refl;
  reads = λ i. preads-Reads i;
  reads_end = λ i. preads_end i;
  writes = λ i size. pwrites-Sane size;
  writes_end = λ i size. pwrites_end size;
  syncs_end = omega arith;
}

copied :
    run_sync_preprocess_baseline linear preads pwrites
      (transfers 0 ∷ [])
      6
      4
      true
      true
      (transfers 3)
      (transfers 4)
      text
      []
    ≡ some (
      record { bytes_read = 5; bytes_written = 5; error_number = 0 },
      65 ∷ 98 ∷ 91 ∷ 90 ∷ 200 ∷ [],
    )
unfolding run_sync_preprocess_baseline FileIo.read_at FileIo.write_all_at FileIo.fsync_fd flip_case
copied = refl

run_sync_preprocess_baseline-Copies_example :
    (r : SyncPreprocessResult) × (output' : List ℕ) × (run_sync_preprocess_baseline linear preads
        pwrites
        (transfers 0 ∷ [])
        6
        4
        true
        true
        (transfers 3)
        (transfers 4)
        text
        []
      ≡ some (r, output'))
    × (r.error_number ≡ 0
        → (output' ≡ linear.store [] 0 (map flip_case text))
          × (r.bytes_read ≡ 5)
          × (r.bytes_written ≡ 5))
run_sync_preprocess_baseline-Copies_example =
    run_sync_preprocess_baseline-Copies linear preads pwrites (transfers 0 ∷ []) 4 text [] text
      serves (omega arith) (omega arith) 3 4 6 (omega arith)
