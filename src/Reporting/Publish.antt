-- ===== src/Reporting/Publish.antt =====
-- How src/reporting/pipeline_reporter.cpp publishes a JSON document: it is written to a temporary file
-- beside the final path, synchronised, and renamed over that. The operating system answers the calls
-- in turn, and `none` stands for a call that never returns. The text of the document is given.
pub mod Atomic
use io_uring_async_load_proc.Prelude.{
  ℕ, ◌+◌, ◌-◌, ◌^◌, min, Bool, true, false, ◌||◌, Option, none, some, List, [], ◌∷◌, ◌++◌, length,
  take, drop, ltb, ◌==◌, if◌then◌else◌,
}
use io_uring_async_load_proc.Exception.{
  Result, ok, throw, throw_if, ◌>>=◌, ◌>>◌, invalid_argument, system_error,
}
use io_uring_async_load_proc.Util.Errno.{eintr, eio}
use io_uring_async_load_proc.Util.FileIo.{Answer, transfers, failed}
use io_uring_async_load_proc.Metrics.Name.{bytes, name_eq}
use io_uring_async_load_proc.Pipeline.Output.{Directory, has_null_byte, filename, throw_on}

-- The largest `ssize_t`.
abbrev pub request_max : ℕ
request_max = 2 ^ 63 - 1

unfoldable pub validate_json_path : List ℕ → Result (Unit {0})
unfolding has_null_byte filename
validate_json_path path = do
  throw_if (length path == 0) invalid_argument
  throw_if (has_null_byte path) invalid_argument
  throw_if
      (length (filename path) == 0
        || (name_eq (filename path) (bytes ".") || name_eq (filename path) (bytes "..")))
      invalid_argument

unfoldable pub fsync_checked : List Answer → Option (Result (Unit {0}) × List Answer)
fsync_checked [] = none
fsync_checked (transfers n ∷ answers) = some (ok tt, answers)
fsync_checked (failed e ∷ answers) =
    let retried = fsync_checked answers in
    if e == eintr then retried else some (throw (system_error e), answers)

-- The loop, with what the file holds and the number of bytes that are written. A call that is made
-- again is the next round, whose request is the same.
unfoldable pub write_all_checked :
    List Answer → List ℕ → List ℕ → ℕ → Option (Result (Unit {0}) × List ℕ)
write_all_checked [] text file written =
    if ltb written (length text) then none else some (ok tt, file)
write_all_checked (answer ∷ answers) text file written =
    let round : Option (Result (Unit {0}) × List ℕ) = elim answer [
      | failed e ↦
          let retried = write_all_checked answers text file written in
          if e == eintr then retried else some (throw (system_error e), file)
      | transfers n ↦
          let result = min n (min (length text - written) request_max) in
          let rest =
            write_all_checked answers text (file ++ take result (drop written text))
              (written + result) in
          if result == 0 then some (throw (system_error eio), file) else rest
    ] in
    if ltb written (length text) then round else some (ok tt, file)

-- The answers of the system calls of one publication.
pub record JsonAnswers : Type 0 where
  pub open_directory : Option ℕ
  pub make_temporary : Option ℕ
  pub writes : List Answer
  pub sync_file : List Answer
  pub rename : Option ℕ
  pub sync_directory : List Answer
  pub unlink : Option ℕ

-- `AtomicJsonFile`, whose paths and descriptors do not change after its constructor.
pub record AtomicJsonFile : Type 0 where
  pub committed : Bool

unfoldable pub new_json_file :
    JsonAnswers → List ℕ → Directory → Result (AtomicJsonFile × Directory)
unfolding validate_json_path throw_on
new_json_file a final_path d = do
  validate_json_path final_path
  throw_on a.open_directory
  throw_on a.make_temporary
  ok (record { committed = false }, record d { temporary = some [] })

abbrev pub Ending : Type 0
Ending = Option (Result (Unit {0}) × AtomicJsonFile × Directory)

unfoldable pub after_directory_sync :
    AtomicJsonFile → Directory → Option (Result (Unit {0}) × List Answer) → Ending
after_directory_sync output d none = none
after_directory_sync output d (some (result, rest)) = some (result, output, d)

unfoldable pub after_file_sync :
    JsonAnswers → AtomicJsonFile → Directory → Option (Result (Unit {0}) × List Answer) → Ending
unfolding after_directory_sync fsync_checked
after_file_sync a output d none = none
after_file_sync a output d (some (throw x, rest)) = some (throw x, output, d)
after_file_sync a output d (some (ok _, rest)) = elim a.rename [
  | some e ↦ some (throw (system_error e), output, d)
  | none ↦
      after_directory_sync (record { committed = true })
        (record { final = d.temporary; temporary = none }) (fsync_checked a.sync_directory)
]

unfoldable pub after_json_write :
    JsonAnswers → AtomicJsonFile → Directory → Option (Result (Unit {0}) × List ℕ) → Ending
unfolding after_file_sync fsync_checked
after_json_write a output d none = none
after_json_write a output d (some (throw x, file)) =
    some (throw x, output, record d { temporary = some file })
after_json_write a output d (some (ok _, file)) =
    after_file_sync a output (record d { temporary = some file }) (fsync_checked a.sync_file)

unfoldable pub publish : JsonAnswers → List ℕ → AtomicJsonFile → Directory → Ending
unfolding after_json_write write_all_checked
publish a contents output d = after_json_write a output d (write_all_checked a.writes contents [] 0)

-- The destructor removes what was not committed, if `unlink` does so; it does not look at the result.
unfoldable pub destroy_json_file : JsonAnswers → AtomicJsonFile → Directory → Directory
destroy_json_file a output d =
    let unlinked : Directory = elim a.unlink [
      | none ↦ record d { temporary = none }
      | some e ↦ d
    ] in
    if output.committed then d else unlinked

unfoldable pub after_publish : JsonAnswers → Ending → Option (Result (Unit {0}) × Directory)
unfolding destroy_json_file
after_publish a none = none
after_publish a (some (result, output, d)) = some (result, destroy_json_file a output d)

unfoldable pub write_metrics_json_atomic :
    JsonAnswers → List ℕ → List ℕ → Directory → Option (Result (Unit {0}) × Directory)
unfolding new_json_file publish after_publish
write_metrics_json_atomic a path contents d = elim (new_json_file a path d) [
  | throw x ↦ some (throw x, d)
  | ok (output, d') ↦ after_publish a (publish a contents output d')
]
