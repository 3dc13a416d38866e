-- ===== src/Baseline/Blocks.antt =====
-- The parts of a run of src/baseline/sync_preprocess_baseline.cpp.
use io_uring_async_load_proc.Prelude.{
  ℕ, ◌+◌, ◌^◌, ◌≤◌, ◌<◌, ◌≡◌, refl, sym, ap, subst, ◌∙◌, inl, inr, Option, some, List, [], ◌∷◌, map,
  length, take, drop, ◌==◌, arith, Bool-cases, length-take, length-map, take-add, take-length, ap₂,
  map-take, map-drop,
}
use io_uring_async_load_proc.Util.Errno.{eintr}
use io_uring_async_load_proc.Util.FileIo.{FileSystem, Answer, transfers, failed, fsync_fd}
use io_uring_async_load_proc.Util.FileIo.WriteAll.{effective, Sane}
use io_uring_async_load_proc.Util.FileIo.ReadPart.{Reads}
use io_uring_async_load_proc.Baseline.{SyncPreprocessResult, flip_case, stop, finish}

module _ (fs : FileSystem) (preads : ℕ → List Answer) (pwrites : ℕ → ℕ → List Answer)
    (fsyncs : List Answer) (block_size : ℕ) (input output : fs.File) (contents : List ℕ) where
  -- What the operating system does: a read gives a part of the input, and no call is interrupted for
  -- ever.
  pub record Serves : Type 0 where
    pub loads : (o k : ℕ) → fs.load input o k ≡ take k (drop o contents)
    pub reads : (i : ℕ) → Reads (preads i)
    pub reads_end : (i : ℕ) → 0 < effective (preads i)
    pub writes : (i size : ℕ) → Sane (pwrites i size)
    pub writes_end : (i size : ℕ) → size ≤ effective (pwrites i size)
    pub syncs_end : 0 < effective fsyncs

  abbrev pub target : List ℕ
  target = map flip_case contents

  abbrev pub Copies : Option (SyncPreprocessResult × fs.File) → Type 0
  Copies o =
      (r : SyncPreprocessResult) × (output' : fs.File) × (o ≡ some (r, output'))
      × (r.error_number ≡ 0
          → (output' ≡ fs.store output 0 target)
            × (r.bytes_read ≡ length contents)
            × (r.bytes_written ≡ length contents))

  module _ (serves : Serves) (some_size : 0 < block_size) (small : length contents < 2 ^ 64) where
    fsync_fd_returns :
        (answers : List Answer)
        → 0 < effective answers
        → (e : ℕ) × (rest : List Answer) × (fsync_fd answers ≡ some (e, rest))
    unfolding fsync_fd
    fsync_fd_returns [] enough = absurd (omega arith)
    fsync_fd_returns (transfers n ∷ answers) enough = (0, answers, refl)
    fsync_fd_returns (failed e ∷ answers) enough = elim (Bool-cases (e == eintr)) [
      | inl again ↦ rw again (fsync_fd_returns answers (ground arith))
      | inr other ↦ rw other (e, answers, refl)
    ]

    pub finish-Copies :
        (o : ℕ) (file : fs.File)
        → o ≡ length contents
        → file ≡ fs.store output 0 (take o target)
        → Copies (finish fs preads pwrites fsyncs block_size input o o file)
    unfolding finish
    finish-Copies o file all stored =
        let (e, rest, synced) = fsync_fd_returns fsyncs serves.syncs_end in
        let whole : take o target ≡ target =
          ap (λ k. take k target) (omega (arith, length-map contents flip_case))
          ∙ take-length target in
        let ends : finish fs preads pwrites fsyncs block_size input o o file
            ≡ stop fs preads pwrites fsyncs block_size input o o e file =
          ground arith in
        subst Copies (sym ends)
          (_, file, refl, λ fine. (stored ∙ ap (fs.store output 0) whole, all, all))

    -- The next block goes behind the ones before.
    pub next_stored :
        (o : ℕ) (file : fs.File) (bytes : List ℕ)
        → o ≤ length contents
        → file ≡ fs.store output 0 (take o target)
        → bytes ≡ take (length bytes) (drop o contents)
        → fs.store file o (map flip_case bytes) ≡ fs.store output 0 (take (o + length bytes) target)
    next_stored o file bytes within stored part =
        let size : length (take o target) ≡ o =
          omega (arith, length-take o target, length-map contents flip_case) in
        let cut : map flip_case bytes ≡ take (length bytes) (drop o target) =
          ap (map flip_case) part
          ∙ map-take flip_case (length bytes) (drop o contents)
          ∙ ap (take (length bytes)) (map-drop flip_case o contents) in
        let here : o ≡ 0 + length (take o target) = omega (arith, size) in
        ap₂ (λ f t. fs.store f o t) stored cut
        ∙ ap
            (λ k.
              fs.store (fs.store output 0 (take o target)) k (take (length bytes) (drop o target)))
            here
        ∙ fs.store_behind output 0 (take o target) (take (length bytes) (drop o target))
        ∙ ap (fs.store output 0) (sym (take-add o (length bytes) target))
