-- ===== src/Reporting/Publish/Atomic.antt =====
-- What a publication of src/reporting/pipeline_reporter.cpp leaves behind.
use io_uring_async_load_proc.Prelude.{
  ℕ, ◌+◌, ◌-◌, ◌≤◌, ◌<◌, ◌≡◌, refl, sym, ap, ◌∙◌, ◌⊎◌, inl, inr, false, Option, none, some, List,
  [], ◌∷◌, ◌++◌, length, take, drop, min, ◌==◌, arith, Bool-cases, Option-cases, take-add,
  take-length, dec_lt, ℕ_discrete,
}
use io_uring_async_load_proc.Exception.{
  Exception, system_error, Result, ok, throw, Result-cases, >>=-eq-ok,
}
use io_uring_async_load_proc.Util.Errno.{eintr, eio}
use io_uring_async_load_proc.Util.FileIo.{Answer, transfers, failed}
use io_uring_async_load_proc.Util.FileIo.WriteAll.{effective}
use io_uring_async_load_proc.Pipeline.Output.{Directory, throw_on}
use io_uring_async_load_proc.Reporting.Publish.{
  request_max, validate_json_path, fsync_checked, write_all_checked, JsonAnswers, AtomicJsonFile,
  new_json_file, after_directory_sync, after_file_sync, after_json_write, publish,
  destroy_json_file, after_publish, write_metrics_json_atomic,
}

fsync_checked_returns :
    (answers : List Answer)
    → 0 < effective answers
    → (result : Result (Unit {0})) × (rest : List Answer) × (fsync_checked answers
        ≡ some (result, rest))
unfolding fsync_checked
fsync_checked_returns [] enough = absurd (omega arith)
fsync_checked_returns (transfers n ∷ answers) enough = (ok tt, answers, refl)
fsync_checked_returns (failed e ∷ answers) enough = elim (Bool-cases (e == eintr)) [
  | inl again ↦ rw again (fsync_checked_returns answers (ground arith))
  | inr other ↦ rw other (_, answers, refl)
]

abbrev Wrote : List ℕ → Option (Result (Unit {0}) × List ℕ) → Type 0
Wrote text o =
    (result : Result (Unit {0})) × (file : List ℕ) × (o ≡ some (result, file))
    × (result ≡ ok tt → file ≡ text)

loop_end :
    (answers : List Answer) (text file : List ℕ) (written : ℕ)
    → length text ≤ written
    → write_all_checked answers text file written ≡ some (ok tt, file)
unfolding write_all_checked
loop_end [] text file written all = ground arith
loop_end (answer ∷ answers) text file written all = ground arith

loop_end-Wrote :
    (answers : List Answer) (text file : List ℕ) (written : ℕ)
    → written ≡ length text
    → file ≡ take written text
    → Wrote text (write_all_checked answers text file written)
loop_end-Wrote answers text file written all has = (
  ok tt,
  file,
  loop_end answers text file written (omega arith),
  λ fine. has ∙ ap (λ k. take k text) all ∙ take-length text,
)

-- The loop returns, and without an exception it has written the text.
write_all_checked-Wrote :
    (answers : List Answer) (text file : List ℕ) (written : ℕ)
    → written ≤ length text
    → file ≡ take written text
    → length text - written ≤ effective answers
    → Wrote text (write_all_checked answers text file written)
unfolding write_all_checked
write_all_checked-Wrote [] text file written within has enough =
    loop_end-Wrote [] text file written (omega arith) has
write_all_checked-Wrote (failed e ∷ answers) text file written within has enough =
    elim (dec_lt written (length text)) [
      | no end ↦ loop_end-Wrote (failed e ∷ answers) text file written (omega arith) has
      | yes more ↦ elim (Bool-cases (e == eintr)) [
        | inl again ↦
            let (result, last, goes, right) =
              write_all_checked-Wrote answers text file written within has (ground arith) in
            (result, last, ground arith, right)
        | inr other ↦ (throw (system_error e), file, ground arith, λ fine. absurd (ground arith))
      ]
    ]
write_all_checked-Wrote (transfers n ∷ answers) text file written within has enough =
    let count = min n (min (length text - written) request_max) in
    let next : file ++ take count (drop written text) ≡ take (written + count) text =
      ap (λ f. f ++ take count (drop written text)) has ∙ sym (take-add written count text) in
    elim (dec_lt written (length text)) [
      | no end ↦ loop_end-Wrote (transfers n ∷ answers) text file written (omega arith) has
      | yes more ↦ elim (ℕ_discrete count 0) [
        | yes nothing ↦
            (throw (system_error eio), file, ground arith, λ fine. absurd (ground arith))
        | no something ↦
            let (result, last, goes, right) =
              write_all_checked-Wrote answers text (file ++ take count (drop written text))
                (written + count) (omega arith) next (omega arith) in
            (result, last, ground arith, right)
      ]
    ]

-- What a publication leaves behind, and how it ends.
pub record Published (unlink : Option ℕ) (contents : List ℕ) (d : Directory)
    (result : Result (Unit {0})) (d' : Directory) : Type 0 where
  pub unlinked : unlink ≡ none → d'.temporary ≡ none
  pub old_or_new : (d'.final ≡ d.final) ⊎ ((d'.final ≡ some contents) × (d'.temporary ≡ none))
  pub good_is_new : result ≡ ok tt → (d'.final ≡ some contents) × (d'.temporary ≡ none)

-- What is left when a publication throws before the renaming.
abbrev removed : JsonAnswers → Directory → List ℕ → Directory
removed a d file =
    destroy_json_file a (record { committed = false }) (record d { temporary = some file })

removed-Published :
    (a : JsonAnswers) (d : Directory) (contents file : List ℕ) (x : Exception)
    → Published a.unlink contents d (throw x) (removed a d file)
unfolding destroy_json_file
removed-Published a d contents file x = record {
  unlinked = λ h. ground arith;
  old_or_new = inl (ground arith);
  good_is_new = λ fine. absurd (ground arith);
}

abbrev Publishes : Option ℕ → List ℕ → Directory → Option (Result (Unit {0}) × Directory) → Type 0
Publishes unlink contents d o =
    (result : Result (Unit {0})) × (d' : Directory) × (o ≡ some (result, d'))
    × Published unlink contents d result d'

module _ (a : JsonAnswers) (contents : List ℕ) (d : Directory) where
  after_publish-Publishes :
      length contents ≤ effective a.writes
      → 0 < effective a.sync_file
      → 0 < effective a.sync_directory
      → Publishes a.unlink contents d (
          after_publish a
            (publish a contents (record { committed = false }) (record d { temporary = some [] })))
  unfolding publish after_json_write after_file_sync after_directory_sync after_publish
      destroy_json_file
  after_publish-Publishes enough sync sync' =
      let (wrote, file, written, right) =
        write_all_checked-Wrote a.writes contents [] 0 (omega arith) refl (omega arith) in
      let (synced, rest, file_sync) = fsync_checked_returns a.sync_file sync in
      let (kept, rest', directory_sync) = fsync_checked_returns a.sync_directory sync' in
      elim (Result-cases wrote) [
        | inr (x, threw) ↦
            (throw x, removed a d file, ground arith, removed-Published a d contents file x)
        | inl (_, fine) ↦
            let whole : file ≡ contents = right fine in
            elim (Result-cases synced) [
              | inr (x, threw) ↦
                  (throw x, removed a d file, ground arith, removed-Published a d contents file x)
              | inl (_, fine') ↦ elim (Option-cases a.rename) [
                | inr (e, refused) ↦ (
                  throw (system_error e),
                  removed a d file,
                  ground arith,
                  removed-Published a d contents file (system_error e),
                )
                | inl renamed ↦ (
                  kept,
                  record { final = some file; temporary = none },
                  ground arith,
                  record {
                    unlinked = λ h. refl;
                    old_or_new = inr (ap some whole, refl);
                    good_is_new = λ fine. (ap some whole, refl);
                  },
                )
              ]
            ]
      ]

prepared-fresh :
    (a : JsonAnswers) (path : List ℕ) (d : Directory) (output : AtomicJsonFile) (d' : Directory)
    → new_json_file a path d ≡ ok (output, d')
    → (output ≡ record { committed = false }) × (d' ≡ record d { temporary = some [] })
unfolding new_json_file
prepared-fresh a path d output d' made =
    let (_, _, named) = >>=-eq-ok (validate_json_path path) _ made in
    let (_, _, opened) = >>=-eq-ok (throw_on a.open_directory) _ named in
    let (_, _, last) = >>=-eq-ok (throw_on a.make_temporary) _ opened in
    (ground (arith, last), ground (arith, last))

-- Where there is no temporary file yet: if as many calls of `write` as the document has bytes, and
-- one call of each `fsync`, are not interrupted, then `write_metrics_json_atomic` returns. The final
-- path is as it was, or holds the whole document and the temporary file is gone; the latter whenever
-- no exception is thrown. A temporary file is left only if `unlink` fails.
pub write_metrics_json_atomic-Published :
    (a : JsonAnswers) (path contents : List ℕ) (d : Directory)
    → d.temporary ≡ none
    → length contents ≤ effective a.writes
    → 0 < effective a.sync_file
    → 0 < effective a.sync_directory
    → (result : Result (Unit {0})) × (d' : Directory) × (write_metrics_json_atomic a path contents d
        ≡ some (result, d'))
      × Published a.unlink contents d result d'
unfolding write_metrics_json_atomic
write_metrics_json_atomic-Published a path contents d none_temporary enough sync sync' =
    elim (Result-cases (new_json_file a path d)) [
      | inr (x, threw) ↦ (
        throw x,
        d,
        ground arith,
        record {
          unlinked = λ h. none_temporary;
          old_or_new = inl refl;
          good_is_new = λ fine. absurd (ground arith);
        },
      )
      | inl ((output, d'), made) ↦
          let (fresh, begun) = prepared-fresh a path d output d' made in
          let (result, last, ran, published) =
            after_publish-Publishes a contents d enough sync sync' in
          (result, last, ground (arith, ran, fresh, begun, made), published)
    ]
