-- ===== src/Pipeline/Output.antt =====
-- The output side of src/pipeline/pipeline_executor.cpp: `run_file` writes a temporary file beside
-- the final path and renames it over that when the run was good. What the operating system answers
-- is given, and so is what `PipelineExecutor::run` does: its result, and what it wrote.
pub mod Atomic
use io_uring_async_load_proc.Prelude.{
  ℕ, Bool, true, false, not, ◌&&◌, ◌||◌, Option, none, some, List, [], ◌∷◌, ◌++◌, length, ltb, ◌==◌,
  ◌-◌, ◌^◌, ◌+◌, if◌then◌else◌,
}
use io_uring_async_load_proc.Exception.{
  Exception, Result, ok, throw, throw_if, ◌>>=◌, ◌>>◌, invalid_argument, logic_error,
  overflow_error, system_error,
}
use io_uring_async_load_proc.Metrics.Name.{name_eq, bytes}
use io_uring_async_load_proc.Util.Errno.{enoent}

-- A path is the list of its bytes.
unfoldable pub has_null_byte : List ℕ → Bool
has_null_byte [] = false
has_null_byte (c ∷ cs) = if c == 0 then true else has_null_byte cs

unfoldable pub validate_path : List ℕ → Result (Unit {0})
unfolding has_null_byte
validate_path path = do
  throw_if (length path == 0) invalid_argument
  throw_if (has_null_byte path) invalid_argument

-- `path::filename()`: what stands behind the last slash. `name` is what was read since the last one.
unfoldable pub filename_from : List ℕ → List ℕ → List ℕ
filename_from name [] = name
filename_from name (c ∷ cs) =
    if c == 47 then filename_from [] cs else filename_from (name ++ (c ∷ [])) cs

unfoldable pub filename : List ℕ → List ℕ
unfolding filename_from
filename path = filename_from [] path

-- The device and the inode of a file, or the error number of `stat`.
pub data FileStatus : Type 0 where
  status : ℕ → ℕ → FileStatus
  status_error : ℕ → FileStatus

-- The answers of the system calls of one `run_file`: error numbers, with 0 or `none` for success.
pub record Answers : Type 0 where
  pub open_input : Option ℕ
  pub input_status : FileStatus
  pub output_status : FileStatus
  pub open_directory : Option ℕ
  pub make_temporary : Option ℕ
  pub sync_file : ℕ
  pub rename : Option ℕ
  pub sync_directory : ℕ
  pub unlink : Option ℕ

-- What stands at the final path and at the temporary one.
pub record Directory : Type 0 where
  pub final : Option (List ℕ)
  pub temporary : Option (List ℕ)

pub record PipelineRunResult : Type 0 where
  pub blocks_written : ℕ
  pub bytes_written : ℕ

unfoldable pub throw_on : Option ℕ → Result (Unit {0})
throw_on none = ok tt
throw_on (some e) = throw (system_error e)

unfoldable pub reject_same_input_and_output : FileStatus → FileStatus → Result (Unit {0})
reject_same_input_and_output (status_error e) output = throw (system_error e)
reject_same_input_and_output (status dev ino) (status_error e) =
    if e == enoent then ok tt else throw (system_error e)
reject_same_input_and_output (status dev ino) (status dev' ino') =
    throw_if (dev == dev' && ino == ino') invalid_argument

-- `AtomicOutputFile`, whose paths and descriptors do not change after its constructor.
pub record AtomicOutputFile : Type 0 where
  pub committed : Bool

-- The constructor makes an empty temporary file.
unfoldable pub new_output : Answers → List ℕ → Directory → Result (AtomicOutputFile × Directory)
unfolding validate_path filename throw_on
new_output a final_path d = do
  validate_path final_path
  throw_if
      (length (filename final_path) == 0
        || (name_eq (filename final_path) (bytes ".")
            || name_eq (filename final_path) (bytes "..")))
      invalid_argument
  throw_on a.open_directory
  throw_on a.make_temporary
  ok (record { committed = false }, record d { temporary = some [] })

unfoldable pub commit :
    Answers → AtomicOutputFile → Directory → Result (Unit {0}) × AtomicOutputFile × Directory
commit a output d =
    let renamed : Directory = record { final = d.temporary; temporary = none } in
    if output.committed
    then (throw logic_error, output, d)
    else if not (a.sync_file == 0)
    then (throw (system_error a.sync_file), output, d)
    else (elim a.rename [
      | some e ↦ (throw (system_error e), output, d)
      | none ↦
          if not (a.sync_directory == 0)
          then (throw (system_error a.sync_directory), record output { committed = true }, renamed)
          else (ok tt, record output { committed = true }, renamed)
    ])

-- The destructor removes what was not committed, if `unlink` does so; it does not look at the result.
unfoldable pub destroy : Answers → AtomicOutputFile → Directory → Directory
destroy a output d =
    let unlinked : Directory = elim a.unlink [
      | none ↦ record d { temporary = none }
      | some e ↦ d
    ] in
    if not output.committed then unlinked else d

-- The part of `run_file` in which the output lives: the run wrote `written` and gave `ran`.
unfoldable pub run_and_commit :
    Answers
    → Result PipelineRunResult
    → List ℕ
    → AtomicOutputFile
    → Directory
    → Result PipelineRunResult × Directory
unfolding commit destroy
run_and_commit a ran written output d =
    let d₁ = record d { temporary = some written } in
    elim ran [
      | throw e ↦ (throw e, destroy a output d₁)
      | ok result ↦
          let (done, output', d₂) = commit a output d₁ in (done >> ok result, destroy a output' d₂)
    ]

-- The part of `run_file` up to the construction of the output.
unfoldable pub prepare :
    Answers → List ℕ → List ℕ → Directory → Result (AtomicOutputFile × Directory)
unfolding validate_path throw_on reject_same_input_and_output new_output
prepare a input_path final_output_path d = do
  validate_path input_path
  validate_path final_output_path
  throw_on a.open_input
  reject_same_input_and_output a.input_status a.output_status
  new_output a final_output_path d

unfoldable pub run_prepared :
    Answers
    → Result PipelineRunResult
    → List ℕ
    → Directory
    → Result (AtomicOutputFile × Directory)
    → Result PipelineRunResult × Directory
unfolding run_and_commit
run_prepared a ran written d (throw e) = (throw e, d)
run_prepared a ran written d (ok (output, d')) = run_and_commit a ran written output d'

unfoldable pub run_file :
    Answers
    → Result PipelineRunResult
    → List ℕ
    → List ℕ
    → List ℕ
    → Directory
    → Result PipelineRunResult × Directory
unfolding prepare run_prepared
run_file a ran written input_path final_output_path d =
    run_prepared a ran written d (prepare a input_path final_output_path d)

-- `checked_add` on 64 bits.
unfoldable pub checked_add : ℕ → ℕ → Result ℕ
checked_add left right =
    if ltb (2 ^ 64 - 1 - left) right then throw overflow_error else ok (left + right)
