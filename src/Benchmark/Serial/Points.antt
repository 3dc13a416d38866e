-- ===== src/Benchmark/Serial/Points.antt =====
-- Where the loop of src/benchmark/end_to_end_baseline.cpp stands before each block.
use io_uring_async_load_proc.Prelude.{
  ℕ, zero, suc, ◌+◌, ◌^◌, ◌≤◌, ◌<◌, ◌≡◌, ◌≢◌, refl, ap, inl, inr, Option, none, some, List, [], ◌∷◌,
  length, arith, Option-cases,
}
use io_uring_async_load_proc.Exception.{Result, ok, Result-cases}
use io_uring_async_load_proc.Util.FileIo.{WriteAtResult}
use io_uring_async_load_proc.Pipeline.Output.{checked_add}
use io_uring_async_load_proc.Pipeline.Executor.Workers.State.{Environment}
use io_uring_async_load_proc.Benchmark.Serial.{
  SerialPipelineResult, settle, after_write, after_process, round,
}

abbrev pub bytes_of : Option (Result (List ℕ)) → List ℕ
bytes_of (some (ok bytes)) = bytes
bytes_of _ = []

abbrev pub output_of : {F : Type 0} → F → Option (WriteAtResult × F) → F
output_of f none = f
output_of f (some (w, f')) = f'

pub record Point (P F : Type 0) : Type 0 where
  pub stages : P
  pub output : F
  pub file_offset : ℕ

settle-ok :
    (i size o : ℕ) (w : WriteAtResult) (r : SerialPipelineResult × ℕ)
    → 0 < size
    → settle (record { blocks_written = i; bytes_written = o }) o size w ≡ ok r
    → (w.error_number ≡ 0)
      × (w.bytes_written ≡ size)
      × (o + size < 2 ^ 64)
      × (i + 1 < 2 ^ 64)
      × (r.0 ≡ record { blocks_written = i + 1; bytes_written = o + size })
      × (r.1 ≡ o + size)
unfolding settle checked_add
settle-ok i size o w r some_bytes h = ground arith

pub le_of_ne : (i j : ℕ) → i ≤ j → (i ≢ j) → suc i ≤ j
le_of_ne i j h ne = omega arith

pub next : (i : ℕ) → i + 1 ≡ suc i
next i = omega arith

module _ (e : Environment) (stages : e.Stages) (output : e.File) where
  open e use {read, process, write}

  next_point : ℕ → Point e.Stages e.File → Point e.Stages e.File
  next_point i p =
      let bytes = bytes_of (read i p.file_offset) in
      let (stages', block, done) = process p.stages bytes in
      record {
        stages = stages';
        output = output_of p.output (write i p.output block p.file_offset);
        file_offset = p.file_offset + length bytes;
      }

  unfoldable pub point : ℕ → Point e.Stages e.File
  unfolding next_point
  point zero = record { stages = stages; output = output; file_offset = 0 }
  point (suc i) = next_point i (point i)

  abbrev pub offset : ℕ → ℕ
  offset i = (point i).file_offset

  -- The block with an index, and what the stages make of it.
  abbrev pub bytes_at : ℕ → List ℕ
  bytes_at i = bytes_of (read i (offset i))

  abbrev pub block_at : ℕ → List ℕ
  block_at i = (process (point i).stages (bytes_at i)).1

  -- Nothing goes wrong with a block.
  pub record IsGood (i : ℕ) : Type 0 where
    pub front : ℕ
    pub rest : List ℕ
    pub answer : WriteAtResult
    pub was_read : read i (offset i) ≡ some (ok (front ∷ rest))
    pub processed : (process (point i).stages (bytes_at i)).2 ≡ ok tt
    pub written :
        write i (point i).output (block_at i) (offset i) ≡ some (answer, (point (suc i)).output)
    pub no_error : answer.error_number ≡ 0
    pub all_written : answer.bytes_written ≡ length (bytes_at i)
    pub fits : offset (suc i) < 2 ^ 64
    pub counted : i + 1 < 2 ^ 64

  pub offset-suc : (i : ℕ) → offset (suc i) ≡ offset i + length (bytes_at i)
  unfolding point
  offset-suc i = refl

  pub stages-suc : (i : ℕ) → (point (suc i)).stages ≡ (process (point i).stages (bytes_at i)).0
  unfolding point
  stages-suc i = refl

  abbrev pub result_at : ℕ → SerialPipelineResult
  result_at i = record { blocks_written = i; bytes_written = offset i }

  -- What a loop that ended well went through.
  pub record IsWhole (first : ℕ) (result : SerialPipelineResult) (stages' : e.Stages)
      (output' : e.File) : Type 0 where
    pub blocks : ℕ
    pub from_first : first ≤ blocks
    pub good : (i : ℕ) → first ≤ i → i < blocks → IsGood i
    pub at_end : read blocks (offset blocks) ≡ some (ok [])
    pub same_result : result ≡ result_at blocks
    pub same_stages : stages' ≡ (point blocks).stages
    pub same_output : output' ≡ (point blocks).output

  -- A round that ends well goes from one point to the next.
  module _ (i front : ℕ) (rest : List ℕ)
      (was_read : read i (offset i) ≡ some (ok (front ∷ rest))) where
    pub round-IsGood :
        (r : SerialPipelineResult) (o : ℕ) (stages' : e.Stages) (output' : e.File)
        → round e i (point i).stages (point i).output (result_at i) (offset i) (front ∷ rest)
          ≡ some (ok (r, o), stages', output')
        → IsGood i
          × (r ≡ result_at (suc i))
          × (o ≡ offset (suc i))
          × (stages' ≡ (point (suc i)).stages)
          × (output' ≡ (point (suc i)).output)
    unfolding round point after_process after_write
    round-IsGood r o stages' output' h =
        let ran = process (point i).stages (front ∷ rest) in
        let size = length (front ∷ rest) in
        let same : bytes_at i ≡ front ∷ rest = ap bytes_of was_read in
        elim (Result-cases ran.2) [
          | inr (x, threw) ↦ absurd (ground arith)
          | inl (_, done) ↦ elim (Option-cases (write i (point i).output ran.1 (offset i))) [
            | inl never ↦ absurd (ground arith)
            | inr ((w, f'), wrote) ↦ elim (Result-cases (settle (result_at i) (offset i) size w)) [
              | inr (x, threw) ↦ absurd (ground arith)
              | inl (t, settled) ↦
                  let (no_error, all, fits, counted, sum, next) =
                    settle-ok i size (offset i) w t (omega arith) settled in
                  let first : t.0 ≡ r = ground arith in
                  let second : t.1 ≡ o = ground arith in
                  let third : ran.0 ≡ stages' = ground arith in
                  let fourth : f' ≡ output' = ground arith in
                  (
                    record {
                      front = front;
                      rest = rest;
                      answer = w;
                      was_read = was_read;
                      processed = rw same done;
                      written = rw same (ground arith);
                      no_error = no_error;
                      all_written = rw same all;
                      fits = rw same fits;
                      counted = counted;
                    },
                    rw same (ground arith),
                    rw same (ground arith),
                    rw same (ground arith),
                    rw same (ground arith),
                  )
            ]
          ]
        ]
