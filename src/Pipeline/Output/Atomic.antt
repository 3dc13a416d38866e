-- ===== src/Pipeline/Output/Atomic.antt =====
-- `run_file` of src/pipeline/pipeline_executor.cpp publishes a whole output or none.
use io_uring_async_load_proc.Prelude.{
  ℕ, ◌≡◌, ◌≢◌, ◌⊎◌, inl, inr, refl, sym, false, ◌||◌, none, some, List, [], length, ◌==◌, arith,
  Bool-cases, Option-cases,
}
use io_uring_async_load_proc.Exception.{
  Exception, Result, ok, throw, throw_if, invalid_argument, system_error, >>=-eq-ok,
}
use io_uring_async_load_proc.Metrics.Name.{name_eq, bytes}
use io_uring_async_load_proc.Pipeline.Output.{
  status, Answers, Directory, PipelineRunResult, AtomicOutputFile, validate_path, throw_on,
  reject_same_input_and_output, new_output, commit, destroy, run_and_commit, prepare, run_prepared,
  run_file, filename,
}
use mathlib.Core.Path.{subst₂}

-- What may be seen afterwards: the old output, with an exception, or the new one, after a good run
-- whose file was synchronised and renamed, with its result, or with the exception that the
-- directory could not be synchronised.
pub record Published (a : Answers) (ran : Result PipelineRunResult) (written : List ℕ)
    (d : Directory) (o : Result PipelineRunResult) (d' : Directory) : Type 0 where
  pub unlinked : a.unlink ≡ none → d'.temporary ≡ none
  pub old_or_new :
      ((d'.final ≡ d.final) × ((e : Exception) × (o ≡ throw e)))
      ⊎ ((result : PipelineRunResult) × (ran ≡ ok result)
          × (d'.final ≡ some written)
          × (d'.temporary ≡ none)
          × (a.sync_file ≡ 0)
          × (a.rename ≡ none)
          × (((a.sync_directory ≡ 0) × (o ≡ ok result))
              ⊎ ((a.sync_directory ≢ 0) × (o ≡ throw (system_error a.sync_directory)))))

run_and_commit-Published :
    (a : Answers) (ran : Result PipelineRunResult) (written : List ℕ) (d : Directory)
    → let (o, d') =
        run_and_commit a ran written
          (record { committed = false })
          (record d { temporary = some [] }) in
      Published a ran written d o d'
unfolding run_and_commit commit destroy
run_and_commit-Published a (throw e) written d = elim (Option-cases a.unlink) [
  | inl gone ↦ record { unlinked = λ h. ground arith; old_or_new = inl (ground arith, (e, refl)) }
  | inr (x, kept) ↦ record {
    unlinked = λ h. absurd (ground arith);
    old_or_new = inl (ground arith, (e, refl));
  }
]
run_and_commit-Published a (ok result) written d = elim (Bool-cases (a.sync_file == 0)) [
  | inr unsynced ↦ record {
    unlinked = λ h. ground arith;
    old_or_new = inl (ground arith, (system_error a.sync_file, ground arith));
  }
  | inl synced ↦ elim (Option-cases a.rename) [
    | inr (e, refused) ↦ record {
      unlinked = λ h. ground arith;
      old_or_new = inl (ground arith, (system_error e, ground arith));
    }
    | inl renamed ↦ elim (Bool-cases (a.sync_directory == 0)) [
      | inl kept ↦ record {
        unlinked = λ h. ground arith;
        old_or_new = inr (
          result,
          refl,
          ground arith,
          ground arith,
          ground arith,
          renamed,
          inl (ground arith, ground arith),
        );
      }
      | inr unkept ↦ record {
        unlinked = λ h. ground arith;
        old_or_new = inr (
          result,
          refl,
          ground arith,
          ground arith,
          ground arith,
          renamed,
          inr (ground arith, ground arith),
        );
      }
    ]
  ]
]

new_output-fresh :
    (a : Answers) (path : List ℕ) (d : Directory) (output : AtomicOutputFile) (d' : Directory)
    → new_output a path d ≡ ok (output, d')
    → (output ≡ record { committed = false }) × (d' ≡ record d { temporary = some [] })
unfolding new_output
new_output-fresh a path d output d' made =
    let (_, _, named) = >>=-eq-ok (validate_path path) _ made in
    let (_, _, parent) =
      >>=-eq-ok
        (throw_if
          (length (filename path) == 0
            || (name_eq (filename path) (bytes ".") || name_eq (filename path) (bytes "..")))
          invalid_argument)
        _ named in
    let (_, _, opened) = >>=-eq-ok (throw_on a.open_directory) _ parent in
    let (_, _, last) = >>=-eq-ok (throw_on a.make_temporary) _ opened in
    (ground (arith, last), ground (arith, last))

same_file-refused :
    (dev ino : ℕ)
    → reject_same_input_and_output (status dev ino) (status dev ino) ≡ throw invalid_argument
unfolding reject_same_input_and_output
same_file-refused dev ino = ground arith

-- What a prepared output is.
record Prepared (a : Answers) (d : Directory) (output : AtomicOutputFile) (d' : Directory)
    : Type 0 where
  fresh : output ≡ record { committed = false }
  temporary : d' ≡ record d { temporary = some [] }
  not_input : (dev ino : ℕ) → a.input_status ≡ status dev ino → a.output_status ≡ status dev ino → ⊥

prepare-Prepared :
    (a : Answers) (input_path final_output_path : List ℕ) (d : Directory)
    (output : AtomicOutputFile) (d' : Directory)
    → prepare a input_path final_output_path d ≡ ok (output, d')
    → Prepared a d output d'
unfolding prepare
prepare-Prepared a input_path final_output_path d output d' made =
    let (_, _, named) = >>=-eq-ok (validate_path input_path) _ made in
    let (_, _, both) = >>=-eq-ok (validate_path final_output_path) _ named in
    let (_, _, opened) = >>=-eq-ok (throw_on a.open_input) _ both in
    let (_, apart, last) =
      >>=-eq-ok (reject_same_input_and_output a.input_status a.output_status) _ opened in
    let (fresh, temporary) = new_output-fresh a final_output_path d output d' last in
    record {
      fresh = fresh;
      temporary = temporary;
      not_input = λ dev ino i o. absurd (ground (arith, apart, same_file-refused dev ino));
    }

abbrev Publishes :
    Answers
    → Result PipelineRunResult
    → List ℕ
    → Directory
    → Result PipelineRunResult × Directory
    → Type 0
Publishes a ran written d (o, d') =
    Published a ran written d o d'
    × ((dev ino : ℕ)
        → a.input_status ≡ status dev ino
        → a.output_status ≡ status dev ino
        → d'.final ≡ d.final)

run_prepared-Publishes :
    (a : Answers) (ran : Result PipelineRunResult) (written : List ℕ) (d : Directory)
    (p : Result (AtomicOutputFile × Directory))
    → d.temporary ≡ none
    → ((output : AtomicOutputFile) (d' : Directory) → p ≡ ok (output, d') → Prepared a d output d')
    → Publishes a ran written d (run_prepared a ran written d p)
unfolding run_prepared
run_prepared-Publishes a ran written d (throw e) none_yet h =
    (record { unlinked = λ h. none_yet; old_or_new = inl (refl, (e, refl)) }, λ dev ino i o. refl)
run_prepared-Publishes a ran written d (ok (output, d')) none_yet h =
    let prepared = h output d' refl in
    (
      subst₂
          (λ output d'.
            Published a ran written d (run_and_commit a ran written output d').0
              (run_and_commit a ran written output d').1)
          (sym prepared.fresh) (sym prepared.temporary) (run_and_commit-Published a ran written d),
      λ dev ino i o. absurd (prepared.not_input dev ino i o),
    )

-- Whatever the run does and whatever fails: the final path either is as it was, and an exception is
-- thrown, or it has all that a good run wrote, after that was synchronised and renamed; then the
-- result is returned, or, if the directory could not be synchronised, that error is thrown. An input
-- that is the final file itself is left as it was. Where there was no temporary file, none is left
-- unless the `unlink` of one that was not renamed fails.
pub run_file-Published :
    (a : Answers) (ran : Result PipelineRunResult) (written input_path final_output_path : List ℕ)
    (d : Directory)
    → d.temporary ≡ none
    → let (o, d') = run_file a ran written input_path final_output_path d in
      Published a ran written d o d'
      × ((dev ino : ℕ)
          → a.input_status ≡ status dev ino
          → a.output_status ≡ status dev ino
          → d'.final ≡ d.final)
unfolding run_file
run_file-Published a ran written input_path final_output_path d none_yet =
    run_prepared-Publishes a ran written d (prepare a input_path final_output_path d) none_yet
      (prepare-Prepared a input_path final_output_path d)
