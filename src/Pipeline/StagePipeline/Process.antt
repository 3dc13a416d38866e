-- ===== src/Pipeline/StagePipeline/Process.antt =====
-- What `Pipeline::process` of src/pipeline/pipeline.cpp does to the block, the stages and the
-- histograms.
use io_uring_async_load_proc.Prelude.{
  ℕ, ◌+◌, ◌≡◌, refl, ap, inl, inr, List, [], ◌∷◌, ◌++◌, map, arith,
}
use io_uring_async_load_proc.Exception.{Result, ok, throw, Result-cases, Exception}
use io_uring_async_load_proc.Metrics.Registry.{MetricsRegistry}
use io_uring_async_load_proc.Pipeline.StagePipeline.{
  StageInterface, StageEntry, StagePipeline, process_from, run_stages, observe_latency,
}

module _ (si : StageInterface) where
  open si use {Stage, process}

  -- The stages on their own, with no registry.
  unfoldable pub run_plain : List Stage → List ℕ → Result (Unit {0}) × List Stage × List ℕ
  run_plain [] block = (ok tt, [], block)
  run_plain (s ∷ ss) block =
      let (s', block', done) = process s block in
      let (rest, ss', block'') = run_plain ss block' in
      elim done [ ok _ ↦ (rest, s' ∷ ss', block'') | throw x ↦ (throw x, s' ∷ ss, block') ]

  abbrev pub stages_of : List (StageEntry Stage) → List Stage
  stages_of = map λ e. e.stage

  process_from-plain :
      (times : ℕ → ℕ × ℕ) (i : ℕ) (es : List (StageEntry Stage)) (r : MetricsRegistry)
      (block : List ℕ)
      → let (done, es', r', block') = process_from si times i es r block in
        run_plain (stages_of es) block ≡ (done, stages_of es', block')
  unfolding process_from run_plain
  process_from-plain times i [] r block = refl
  process_from-plain times i (e ∷ es) r block =
      let (s', block', done) = process e.stage block in
      let r' = observe_latency r e.latency (times i) in
      let rest = process_from-plain times (i + 1) es r' block' in
      elim (Result-cases done) [
        | inl (_, ran) ↦ ground (arith, rest)
        | inr (_, threw) ↦ ground arith
      ]

  -- Where a run of the stages stopped: the stages before the one that threw all ran, one on what the
  -- other left, and those behind it are as they were.
  pub record Stopped (ss : List Stage) (block : List ℕ) (x : Exception) (ss' : List Stage)
      (block' : List ℕ) : Type 0 where
    pub before : List Stage
    pub thrower : Stage
    pub after : List Stage
    pub before' : List Stage
    pub thrower' : Stage
    pub between : List ℕ
    pub stages : ss ≡ before ++ (thrower ∷ after)
    pub ran : run_plain before block ≡ (ok tt, before', between)
    pub threw : process thrower between ≡ (thrower', block', throw x)
    pub stages' : ss' ≡ before' ++ (thrower' ∷ after)

  run_plain-Stopped :
      (ss : List Stage) (block : List ℕ) (x : Exception) (ss' : List Stage) (block' : List ℕ)
      → run_plain ss block ≡ (throw x, ss', block')
      → Stopped ss block x ss' block'
  unfolding run_plain
  run_plain-Stopped [] block x ss' block' h = absurd (ground arith)
  run_plain-Stopped (s ∷ ss) block x ss' block' h =
      let here = process s block in
      let later = run_plain ss here.1 in
      elim (Result-cases here.2) [
        | inr (y, threw) ↦ record {
          before = [];
          thrower = s;
          after = ss;
          before' = [];
          thrower' = here.0;
          between = block;
          stages = refl;
          ran = refl;
          threw = ground arith;
          stages' = ground arith;
        }
        | inl (_, ran) ↦
            let rest = run_plain-Stopped ss here.1 x later.1 block' (ground arith) in
            record {
              before = s ∷ rest.before;
              thrower = rest.thrower;
              after = rest.after;
              before' = here.0 ∷ rest.before';
              thrower' = rest.thrower';
              between = rest.between;
              stages = ap (λ t. s ∷ t) rest.stages;
              ran = ground (arith, rest.ran);
              threw = rest.threw;
              stages' = ground (arith, rest.stages');
            }
      ]

  -- Timing changes nothing else: on a pipeline with whatever latency histograms, `process` does to
  -- the stages and the block, and throws, what the stages on their own do.
  pub run_stages-plain :
      (times : ℕ → ℕ × ℕ) (p : StagePipeline Stage) (r : MetricsRegistry) (block : List ℕ)
      → let (done, p', r', block') = run_stages si times p r block in
        run_plain (stages_of p.stages) block ≡ (done, stages_of p'.stages, block')
  unfolding run_stages
  run_stages-plain times p r block = process_from-plain times 0 p.stages r block

  -- A `process` that throws stops at the stage that threw: the stages before it have run without an
  -- exception, each on what the one before left, it threw that very exception on what they made of
  -- the block, the block is as it left it, and the stages behind it are as they were.
  pub run_stages-stops :
      (times : ℕ → ℕ × ℕ) (p p' : StagePipeline Stage) (r r' : MetricsRegistry)
      (block block' : List ℕ) (x : Exception)
      → run_stages si times p r block ≡ (throw x, p', r', block')
      → Stopped (stages_of p.stages) block x (stages_of p'.stages) block'
  run_stages-stops times p p' r r' block block' x h =
      run_plain-Stopped (stages_of p.stages) block x (stages_of p'.stages) block'
        (ground (arith, run_stages-plain times p r block))
