-- ===== src/Benchmark/Serial/InStep.antt =====
-- The threads of src/pipeline/pipeline_executor.cpp beside the serial loop of
-- src/benchmark/end_to_end_baseline.cpp: the queues hold the blocks between the points that the
-- threads have reached.
-- The items of a list are those of a sequence from one index up to another.
use io_uring_async_load_proc.Prelude.{
  dec_lt, ℕ, suc, ◌≤◌, ◌<◌, ◌≡◌, ◌≢◌, sym, ap, subst, false, none, some, List, [], ◌∷◌, ◌++◌,
  length, arith,
}
use io_uring_async_load_proc.Exception.{Exception, ok, throw}
use io_uring_async_load_proc.Config.{PipelineConfig}
use io_uring_async_load_proc.Pipeline.Output.{PipelineRunResult, checked_add}
use io_uring_async_load_proc.Pipeline.Channel.{finish}
use io_uring_async_load_proc.Pipeline.Executor.Workers.State.{
  Item, Environment, Worker, active, raised, fails_first, fails_second, failed, returned,
  ReaderState, acquires, reads, leaves, ProcessorState, closes, processes, WriterState, writes,
}
use io_uring_async_load_proc.Pipeline.Executor.Workers.Blocks.{
  check_block, add_written, check_write, new_block,
}
use io_uring_async_load_proc.Pipeline.Executor.Workers.Moves.{ChannelRun}
use io_uring_async_load_proc.Pipeline.Executor.Workers.Invariant.{is_failed, IsSound}
use io_uring_async_load_proc.Benchmark.Serial.Points.{
  point, offset, bytes_at, block_at, IsGood, offset-suc, bytes_of,
}

abbrev pub Segment : (ℕ → Item) → ℕ → List Item → ℕ → Type 0
Segment g i [] j = i ≡ j
Segment g i (x ∷ xs) j = (x ≡ g i) × Segment g (suc i) xs j

pub Segment-le : (g : ℕ → Item) (i : ℕ) (xs : List Item) (j : ℕ) → Segment g i xs j → i ≤ j
Segment-le g i [] j h = omega arith
Segment-le g i (x ∷ xs) j h = omega (arith, Segment-le g (suc i) xs j h.1)

pub Segment-snoc :
    (g : ℕ → Item) (i : ℕ) (xs : List Item) (j : ℕ) (x : Item)
    → Segment g i xs j
    → x ≡ g j
    → Segment g i (xs ++ (x ∷ [])) (suc j)
Segment-snoc g i [] j x h e = (subst (λ k. x ≡ g k) (sym h) e, ap suc h)
Segment-snoc g i (y ∷ xs) j x h e = (h.0, Segment-snoc g (suc i) xs j x h.1 e)

-- The reads fill no more than a buffer.
abbrev pub FitsBuffer : PipelineConfig → Environment → Type 0
FitsBuffer c e =
    (i o : ℕ) (bytes : List ℕ) → e.read i o ≡ some (ok bytes) → length bytes ≤ c.block_size

module _ (c : PipelineConfig) (e : Environment) (stages : e.Stages) (output : e.File) where
  open e use {read, process, write}

  abbrev pub raw : ℕ → Item
  raw i = new_block i (offset e stages output i) (bytes_at e stages output i)

  abbrev pub ready : ℕ → Item
  ready i = record {
    block_index = i;
    file_offset = offset e stages output i;
    valid_bytes = length (bytes_at e stages output i);
    block = block_at e stages output i;
  }

  abbrev pub stages_at : ℕ → e.Stages
  stages_at i = (point e stages output i).stages

  abbrev pub run_result_at : ℕ → PipelineRunResult
  run_result_at i = record { blocks_written = i; bytes_written = offset e stages output i }

  module _ (n : ℕ) where
    abbrev pub ReaderAt : Worker ReaderState → ℕ → Type 0
    ReaderAt (active (acquires i o)) r = (i ≡ r) × (o ≡ offset e stages output r)
    ReaderAt (active (reads i o)) r = (i ≡ r) × (o ≡ offset e stages output r)
    ReaderAt (active (ReaderState.pushes i o bytes)) r =
        (i ≡ r) × (o ≡ offset e stages output r) × (bytes ≡ bytes_at e stages output r) × (r < n)
    ReaderAt (active leaves) r = r ≡ n
    ReaderAt returned r = r ≡ n
    ReaderAt _ r = ⊥

    abbrev pub ProcessorAt : Worker ProcessorState → ℕ → ℕ → e.Stages → Type 0
    ProcessorAt (active ProcessorState.pops) p q t = (q ≡ p) × (t ≡ stages_at p)
    ProcessorAt (active (processes item)) p q t = (q ≡ suc p) × (item ≡ raw p) × (t ≡ stages_at p)
    ProcessorAt (active (ProcessorState.pushes item)) p q t =
        (q ≡ suc p) × (item ≡ ready p) × (t ≡ stages_at (suc p))
    ProcessorAt (active closes) p q t = (q ≡ p) × (p ≡ n) × (t ≡ stages_at p)
    ProcessorAt returned p q t = (q ≡ p) × (p ≡ n) × (t ≡ stages_at p)
    ProcessorAt _ p q t = ⊥

    abbrev pub WriterAt : Worker WriterState → ℕ → ℕ → Type 0
    WriterAt (active WriterState.pops) k q = q ≡ k
    WriterAt (active (writes item)) k q = (q ≡ suc k) × (item ≡ ready k)
    WriterAt returned k q = (q ≡ k) × (k ≡ n)
    WriterAt _ k q = ⊥

    -- The reader has handed `r` blocks on, the processor `p` and the writer has written `k`; the
    -- queues begin with the blocks `q` and `q'`.
    pub record InStep (r p k q q' : ℕ) (s : ChannelRun c e) : Type 0 where
      pub reader_at : ReaderAt s.reader r
      pub processor_at : ProcessorAt s.processor p q s.stages
      pub writer_at : WriterAt s.writer k q'
      pub raws : Segment raw q s.read_to_process.items r
      pub readies : Segment ready q' s.process_to_write.items p
      pub in_range : r ≤ n
      pub written : s.output ≡ (point e stages output k).output
      pub summed : s.result ≡ run_result_at k
      pub reads_alive : is_failed s.read_to_process.status ≡ false
      pub writes_alive : is_failed s.process_to_write.status ≡ false
      pub no_failure : s.first_failure ≡ none

    abbrev pub SomeStep : ChannelRun c e → Type 0
    SomeStep s = (r p k q q' : ℕ) × InStep r p k q q' s

    module _ (good : (i : ℕ) → i < n → IsGood e stages output i)
        (at_end : read n (offset e stages output n) ≡ some (ok [])) (fits : FitsBuffer c e)
        {s : ChannelRun c e} (v : IsSound c e s) (r p k q q' : ℕ) (at : InStep r p k q q' s) where
      -- A block that is read before the end is one of the blocks.
      pub read-lt :
          (b : ℕ) (bs : List ℕ) (i o : ℕ)
          → s.reader ≡ active (reads i o)
          → read i o ≡ some (ok (b ∷ bs))
          → (r < n)
            × (i ≡ r)
            × (o ≡ offset e stages output r)
            × (b ∷ bs ≡ bytes_at e stages output r)
      read-lt b bs i o h g =
          let here : (i ≡ r) × (o ≡ offset e stages output r) =
            subst (λ w. ReaderAt w r) h at.reader_at in
          let there : read r (offset e stages output r) ≡ some (ok (b ∷ bs)) =
            rw (← here.1, ← here.0) g in
          elim (dec_lt r n) [
            | yes lt ↦ (lt, here.0, here.1, sym (ap bytes_of there))
            | no ge ↦
                let same : r ≡ n = omega (arith, at.in_range) in
                let ended : read r (offset e stages output r) ≡ some (ok []) =
                  subst (λ m. read m (offset e stages output m) ≡ some (ok [])) (sym same) at_end in
                cc
          ]

      pub at_end-InStep :
          (i o : ℕ)
          → s.reader ≡ active (reads i o)
          → read i o ≡ some (ok [])
          → SomeStep
              (record s { read_to_process = finish s.read_to_process; reader = active leaves })
      unfolding finish
      at_end-InStep i o h g =
          let here : (i ≡ r) × (o ≡ offset e stages output r) =
            subst (λ w. ReaderAt w r) h at.reader_at in
          let there : read r (offset e stages output r) ≡ some (ok []) =
            rw (← here.1, ← here.0) g in
          let last : r ≡ n = elim (dec_lt r n) [
            | yes lt ↦ let was_read = (good r lt).was_read in cc
            | no ge ↦ omega (arith, at.in_range)
          ] in
          (r, p, k, q, q', ground arith)

      pub read_returns :
          (x : Exception) (i o : ℕ) → s.reader ≡ active (reads i o) → read i o ≢ some (throw x)
      read_returns x i o h g =
          let here : (i ≡ r) × (o ≡ offset e stages output r) =
            subst (λ w. ReaderAt w r) h at.reader_at in
          let there : read r (offset e stages output r) ≡ some (throw x) =
            rw (← here.1, ← here.0) g in
          elim (dec_lt r n) [
            | yes lt ↦ let was_read = (good r lt).was_read in absurd (ground arith)
            | no ge ↦
                let same : r ≡ n = omega (arith, at.in_range) in
                let ended : read r (offset e stages output r) ≡ some (ok []) =
                  subst (λ m. read m (offset e stages output m) ≡ some (ok [])) (sym same) at_end in
                absurd (ground arith)
          ]

      -- The checks of a good block pass.
      pub check_block-ok :
          (i : ℕ)
          → i < n
          → check_block c i (offset e stages output i) (length (bytes_at e stages output i)) ≡ ok tt
      unfolding check_block checked_add
      check_block-ok i lt =
          let g = good i lt in
          let next = offset-suc e stages output i in
          let size =
            fits i (offset e stages output i) (bytes_at e stages output i)
              (rw (ap bytes_of g.was_read) g.was_read) in
          ground (arith, g.fits, g.counted)

      pub add_written-ok :
          (i : ℕ)
          → i < n
          → add_written (run_result_at i) (length (bytes_at e stages output i))
            ≡ (ok tt, run_result_at (suc i))
      unfolding add_written checked_add
      add_written-ok i lt =
          let g = good i lt in
          let next = offset-suc e stages output i in ground (arith, g.fits, g.counted)

      pub check_write-ok :
          (i : ℕ) (lt : i < n)
          → check_write (good i lt).answer (length (bytes_at e stages output i)) ≡ ok tt
      unfolding check_write
      check_write-ok i lt = let g = good i lt in ground (arith, g.no_error, g.all_written)

      pub processing-lt : (item : Item) → s.processor ≡ active (processes item) → p < n
      processing-lt item h =
          let ahead = Segment-le raw q s.read_to_process.items r at.raws in
          ground (arith, at.in_range)

      pub writing-lt : (item : Item) → s.writer ≡ active (writes item) → k < n
      writing-lt item h =
          let ahead = Segment-le raw q s.read_to_process.items r at.raws in
          let behind = Segment-le ready q' s.process_to_write.items p at.readies in
          let mine : q' ≡ suc k = ground arith in
          let reached : p ≤ q = reached_of s.processor at.processor_at in omega (arith, at.in_range)
        where
          reached_of : (w : Worker ProcessorState) → ProcessorAt w p q s.stages → p ≤ q
          reached_of (active ProcessorState.pops) m = omega arith
          reached_of (active (processes item)) m = omega arith
          reached_of (active (ProcessorState.pushes item)) m = omega arith
          reached_of (active closes) m = omega arith
          reached_of (raised x) m = absurd m
          reached_of (fails_first x) m = absurd m
          reached_of (fails_second x) m = absurd m
          reached_of failed m = absurd m
          reached_of returned m = omega arith
