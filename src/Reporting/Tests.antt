-- ===== src/Reporting/Tests.antt =====
-- JSON strings and documents of src/reporting/pipeline_reporter.cpp on concrete text, and instances of
-- its theorems.
use io_uring_async_load_proc.Prelude.{◌≡◌, refl, none, some, [], ◌∷◌, ◌++◌, arith}
use io_uring_async_load_proc.Exception.{Result, ok}
use io_uring_async_load_proc.Util.Errno.{eintr}
use io_uring_async_load_proc.Util.FileIo.{transfers, failed}
use io_uring_async_load_proc.Pipeline.Output.{Directory, has_null_byte, filename, throw_on}
use io_uring_async_load_proc.Reporting.Publish.{
  JsonAnswers, write_metrics_json_atomic, validate_json_path, write_all_checked, fsync_checked,
}
use io_uring_async_load_proc.Reporting.Publish.Atomic.{
  Published, write_metrics_json_atomic-Published,
}
use io_uring_async_load_proc.Metrics.Name.{bytes, name_eq}
use io_uring_async_load_proc.Reporting.Json.{escape_byte, escape_all, write_json_string}
use io_uring_async_load_proc.Reporting.Json.Decode.{read_json_string}
use io_uring_async_load_proc.Reporting.Json.RoundTrip.{read_json_string-write}

-- The byte 1, a quotation mark and an `a`.
quoted : write_json_string (1 ∷ 34 ∷ 97 ∷ []) ≡ bytes "\"\\u0001\\\"a\""
unfolding write_json_string escape_all escape_byte
quoted = refl

read_json_string-write_example :
    read_json_string (write_json_string (1 ∷ 34 ∷ 97 ∷ []) ++ bytes ",\n")
    ≡ some (1 ∷ 34 ∷ 97 ∷ [], bytes ",\n")
read_json_string-write_example =
    read_json_string-write (1 ∷ 34 ∷ 97 ∷ []) (bytes ",\n")
      (omega arith, (omega arith, (omega arith, tt)))

-- The second write is interrupted, and takes the rest when it is made again.
abbrev answers : JsonAnswers
answers = record {
  open_directory = none;
  make_temporary = none;
  writes = transfers 2 ∷ failed eintr ∷ transfers 9 ∷ transfers 1 ∷ [];
  sync_file = transfers 0 ∷ [];
  rename = none;
  sync_directory = transfers 0 ∷ [];
  unlink = none;
}

abbrev directory : Directory
directory = record { final = some (bytes "old"); temporary = none }

replaced :
    write_metrics_json_atomic answers (bytes "dir/m.json") (bytes "{}\n") directory
    ≡ some (ok tt, record { final = some (bytes "{}\n"); temporary = none })
unfolding write_metrics_json_atomic validate_json_path has_null_byte filename write_all_checked
    fsync_checked throw_on name_eq
replaced = refl

write_metrics_json_atomic-Published_example :
    (result : Result (Unit {0})) × (d' : Directory) × (write_metrics_json_atomic answers
        (bytes "dir/m.json")
        (bytes "{}\n")
        directory
      ≡ some (result, d'))
    × Published answers.unlink (bytes "{}\n") directory result d'
write_metrics_json_atomic-Published_example =
    write_metrics_json_atomic-Published answers (bytes "dir/m.json") (bytes "{}\n") directory refl
      (omega arith) (omega arith) (omega arith)
