-- ===== src/Benchmark/Serial/Whole.antt =====
-- A loop of src/benchmark/end_to_end_baseline.cpp that ends well went from point to point.
use io_uring_async_load_proc.Prelude.{
  ℕ_discrete, ℕ, zero, suc, ◌+◌, ◌≡◌, refl, subst, Option, none, some, List, [], ◌∷◌, arith,
}
use io_uring_async_load_proc.Exception.{Result, ok, throw}
use io_uring_async_load_proc.Pipeline.Executor.Workers.State.{Environment}
use io_uring_async_load_proc.Benchmark.Serial.{
  SerialPipelineResult, round, after_round, after_read, serial_loop, Ending, Round,
}
use io_uring_async_load_proc.Benchmark.Serial.Points.{
  point, offset, IsGood, IsWhole, result_at, round-IsGood, next, le_of_ne,
}

module _ (e : Environment) (stages : e.Stages) (output : e.File) where
  open e use {read, process, write}

  module _ (result : SerialPipelineResult) (stages' : e.Stages) (output' : e.File) where
    widen :
        (i : ℕ)
        → IsGood e stages output i
        → IsWhole e stages output (suc i) result stages' output'
        → IsWhole e stages output i result stages' output'
    widen i g v = record {
      blocks = v.blocks;
      from_first = omega (arith, v.from_first);
      good = λ j from below. elim (ℕ_discrete i j) [
        | yes here ↦ subst (IsGood e stages output) here g
        | no later ↦ v.good j (le_of_ne i j from later) below
      ];
      at_end = v.at_end;
      same_result = v.same_result;
      same_stages = v.same_stages;
      same_output = v.same_output;
    }

    after_round-IsWhole :
        (i front : ℕ) (rest : List ℕ)
        (later : e.Stages → e.File → SerialPipelineResult → ℕ → Ending e) (ran : Round e)
        → read i (offset e stages output i) ≡ some (ok (front ∷ rest))
        → round e i
            (point e stages output i).stages
            (point e stages output i).output
            (result_at e stages output i)
            (offset e stages output i)
            (front ∷ rest)
          ≡ ran
        → (later
                (point e stages output (suc i)).stages
                (point e stages output (suc i)).output
                (result_at e stages output (suc i))
                (offset e stages output (suc i))
              ≡ some (ok result, stages', output')
            → IsWhole e stages output (suc i) result stages' output')
        → after_round e later ran ≡ some (ok result, stages', output')
        → IsWhole e stages output i result stages' output'
    unfolding after_round
    after_round-IsWhole i front rest later none was_read ran onward h = cc
    after_round-IsWhole i front rest later (some (throw x, st, f)) was_read ran onward h =
        absurd (ground arith)
    after_round-IsWhole i front rest later (some (ok (r, o), st, f)) was_read ran onward h =
        let (g, same_r, same_o, same_st, same_f) =
          round-IsGood e stages output i front rest was_read r o st f ran in
        widen i g (onward (rw (← same_r, ← same_o, ← same_st, ← same_f) h))

    after_read-IsWhole :
        (i : ℕ) (later : e.Stages → e.File → SerialPipelineResult → ℕ → Ending e)
        (answer : Option (Result (List ℕ)))
        → read i (offset e stages output i) ≡ answer
        → (later
                (point e stages output (suc i)).stages
                (point e stages output (suc i)).output
                (result_at e stages output (suc i))
                (offset e stages output (suc i))
              ≡ some (ok result, stages', output')
            → IsWhole e stages output (suc i) result stages' output')
        → after_read e later i
            (point e stages output i).stages
            (point e stages output i).output
            (result_at e stages output i)
            (offset e stages output i)
            answer
          ≡ some (ok result, stages', output')
        → IsWhole e stages output i result stages' output'
    unfolding after_read
    after_read-IsWhole i later none was_read onward h = cc
    after_read-IsWhole i later (some (throw x)) was_read onward h = absurd (ground arith)
    after_read-IsWhole i later (some (ok [])) was_read onward h = record {
      blocks = i;
      from_first = omega arith;
      good = λ j from below. absurd (omega arith);
      at_end = was_read;
      same_result = ground arith;
      same_stages = ground arith;
      same_output = ground arith;
    }
    after_read-IsWhole i later (some (ok (front ∷ rest))) was_read onward h =
        after_round-IsWhole i front rest later _ was_read refl onward h

    pub serial_loop-IsWhole :
        (fuel i : ℕ)
        → serial_loop e fuel i
            (point e stages output i).stages
            (point e stages output i).output
            (result_at e stages output i)
            (offset e stages output i)
          ≡ some (ok result, stages', output')
        → IsWhole e stages output i result stages' output'
    unfolding serial_loop
    serial_loop-IsWhole zero i h = cc
    serial_loop-IsWhole (suc fuel) i h =
        after_read-IsWhole i (serial_loop e fuel (i + 1)) _ refl
          (λ onward. serial_loop-IsWhole fuel (suc i) (rw (next i) at onward)) h
