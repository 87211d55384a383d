-- ===== src/Db/Tests.antt =====
-- The operations of ingestion_airflow/db/audit.py run on sample tables.
use ingestion_airflow.Common.{
  inr, String, ◌+◌, ◌*◌, ◌≡◌, ◌≢◌, refl, ◌↔◌, true, none, some, List, [], ◌∷◌, length, arith,
}
use ingestion_airflow.Py.Exc.{ok}
use ingestion_airflow.Py.Int.{pos}
use ingestion_airflow.Py.Value.{text, int, int_of, str}
use ingestion_airflow.Py.Dict.{Dict, insert, get}
use ingestion_airflow.Samples.{sample_host, sample_formats, empty_db}
use ingestion_airflow.Db.Table.Keyed.{AtMostOne}
use ingestion_airflow.Db.Keys.{
  IsKeyed, Operations, begun, acquires, IsKeyed-Operation, IsKeyed-Operations,
}
use ingestion_airflow.Db.Locks.Refines.{holds, grants, grant, drop, locks_refine}
use ingestion_airflow.Db.Tables.{
  PipelineLock, RunAudit, ValidationErrorAudit, AuditDb, parse_run_id,
}
use ingestion_airflow.Db.Table.{first_where}
use ingestion_airflow.Db.Locks.{acquire_pipeline_lock, release_pipeline_lock}
use ingestion_airflow.Db.Locks.Holding.{lock_of, IsFree, acquire_iff, lock_of-release_kept}
use ingestion_airflow.Db.Locks.Exclusion.{Steps, attempt, release, here, next, lock_exclusion}
use ingestion_airflow.Db.Stages.{
  start_stage_audit, finish_stage_audit, read_stage_audit_record, stage_record_after_finish,
  finish_unstarted,
}
use ingestion_airflow.Db.Checkpoints.{
  read_pipeline_checkpoint, persist_pipeline_checkpoint, checkpoint_roundtrip,
}
use ingestion_airflow.Db.Runs.{new_run, latest_run, finalize_pipeline_state}
use ingestion_airflow.Db.Runs.State.{
  IsLatestRun, latest_run-IsLatest, state_of, state_after, finalize_state,
}
use ingestion_airflow.Py.Text.Strip.{strip}
use ingestion_airflow.Db.ValidationErrors.{
  normalize_errors, normalize_error, coerce_optional_int, coerce_optional_text,
  replace_validation_errors_for_stage,
}
use ingestion_airflow.Db.ValidationErrors.Replace.{context_of, errors_of, replace_errors}

abbrev held_lock : PipelineLock
held_lock = record { pipeline_id = "p"; run_id = 1; locked_at = 0; lock_until = 100 }

abbrev locked_db : AuditDb
locked_db = record empty_db { pipeline_lock = held_lock ∷ [] }

abbrev later_db : AuditDb
later_db =
    (release_pipeline_lock sample_formats "p" "xxx"
      (acquire_pipeline_lock sample_formats 40 40 "p" "xxx" 10 locked_db).1).1

later-Steps : Steps sample_formats 1 100 locked_db later_db
later-Steps = next (next here (attempt locked_db 40 40 "p" "xxx" 10 (omega arith))) (
    release (acquire_pipeline_lock sample_formats 40 40 "p" "xxx" 10 locked_db).1 "p" "xxx"
      (λ h. ground arith))

held : lock_of "p" locked_db ≡ some held_lock
unfolding lock_of first_where
held = refl

parsed_three : parse_run_id sample_formats "xxx" ≡ ok 2
unfolding parse_run_id
parsed_three = refl

lock_exclusion_example :
    (acquire_pipeline_lock sample_formats 50 50 "p" "xxx" 10 later_db).0 ≢ ok true
lock_exclusion_example =
    lock_exclusion sample_formats locked_db later_db "p" held_lock held later-Steps 50 50 "xxx" 10 2
      parsed_three (omega arith)

acquire_iff_example :
    ((acquire_pipeline_lock sample_formats 150 150 "p" "xxx" 10 locked_db).0 ≡ ok true)
    ↔ IsFree 150 (lock_of "p" locked_db)
acquire_iff_example = acquire_iff sample_formats 150 150 "p" "xxx" 10 locked_db parsed_three

lock_of-release_kept_example :
    lock_of "p" (release_pipeline_lock sample_formats "p" "xxx" locked_db).1 ≡ some held_lock
lock_of-release_kept_example =
    lock_of-release_kept sample_formats "p" "xxx" locked_db "p" held_lock held (λ h. ground arith)

stage_record_after_finish_example :
    (read_stage_audit_record sample_formats "xxx" "extract"
      (finish_stage_audit sample_formats 9 "xxx" "extract" "success"
        (some (("read", int (pos 3)) ∷ []))
        none
        (start_stage_audit sample_formats 5 "xxx" "extract" empty_db).1).1).0
    ≡ ok (
        some (record {
          status = "success";
          metrics_json = ("read", int (pos 3)) ∷ [];
          error_text = none;
          started_at = 5;
          finished_at = some 9;
        }))
stage_record_after_finish_example =
    stage_record_after_finish sample_formats "xxx" "extract" parsed_three 5 9 "success"
      (some (("read", int (pos 3)) ∷ [])) none empty_db

finish_unstarted_example :
    (read_stage_audit_record sample_formats "xxx" "extract"
      (finish_stage_audit sample_formats 9 "xxx" "extract" "success" none none empty_db).1).0
    ≡ ok none
unfolding first_where
finish_unstarted_example =
    finish_unstarted sample_formats "xxx" "extract" parsed_three 9 "success" none none empty_db refl

checkpoint_roundtrip_example :
    (read_pipeline_checkpoint sample_formats "p"
      (persist_pipeline_checkpoint sample_formats 7 "p" "xxx"
        (("lsn", text "0/1") ∷ [])
        empty_db).1).0
    ≡ ok (
        some (
          insert "updated_at"
            (text "time")
            (insert "run_id" (text "xxx") (("lsn", text "0/1") ∷ []))))
checkpoint_roundtrip_example =
    checkpoint_roundtrip sample_formats 7 "p" "xxx" (("lsn", text "0/1") ∷ []) empty_db 2
      parsed_three

abbrev first_run : RunAudit
first_run = new_run 1 10 "p" "hash_diff" "ingest" "c" "1" "sum"

abbrev second_run : RunAudit
second_run = record (new_run 2 20 "p" "hash_diff" "ingest" "c" "1" "sum") {
  status = "failed";
  finished_at = some 30;
  error_text = some "boom";
}

abbrev runs_db : AuditDb
runs_db = record empty_db { run_audit = first_run ∷ second_run ∷ [] }

second_is_latest : latest_run "p" runs_db.run_audit ≡ some second_run
unfolding latest_run
second_is_latest = refl

latest_run-IsLatest_example : IsLatestRun "p" runs_db.run_audit (latest_run "p" runs_db.run_audit)
latest_run-IsLatest_example = latest_run-IsLatest "p" runs_db.run_audit

finalize_state_example :
    state_of "p" (finalize_pipeline_state 40 "p" runs_db).1
    ≡ some (state_after "p" 40 second_run (state_of "p" runs_db))
finalize_state_example = finalize_state 40 "p" runs_db second_run second_is_latest

abbrev sample_errors : List Dict
sample_errors =
    (("row_number", int (pos 2))
      ∷ ("field", text "id")
      ∷ ("code", text "type")
      ∷ ("message", text "m")
      ∷ [])
    ∷ []

abbrev sample_row : ValidationErrorAudit
sample_row = record {
  error_id = 8;
  run_id = 2;
  pipeline_id = "p";
  strategy = "hash_diff";
  run_mode = "ingest";
  stage_name = "validate";
  row_number = some (pos 2);
  field = "id";
  code = "type";
  message = "m";
  constraint = none;
  actual_value = none;
  error_object_key = some "k";
  details_json =
      ("row_number", int (pos 2))
      ∷ ("field", text "id")
      ∷ ("code", text "type")
      ∷ ("message", text "m")
      ∷ [];
  created_at = 6;
}

sample_normal :
    normalize_errors sample_host
      (context_of 2 6 "p" "hash_diff" "ingest" "validate" (some "k"))
      (λ k. k + 8)
      0
      sample_errors
    ≡ ok (sample_row ∷ [])
unfolding normalize_errors normalize_error coerce_optional_int get int_of str coerce_optional_text
    strip
sample_normal = refl

replace_errors_example :
    ((replace_validation_errors_for_stage sample_host sample_formats
        (λ k. k + 8)
        6
        "xxx"
        "p"
        "hash_diff"
        "ingest"
        "validate"
        (some "k")
        sample_errors
        empty_db).0
      ≡ ok (length sample_errors))
    × (errors_of 2 "validate"
          (replace_validation_errors_for_stage sample_host sample_formats
            (λ k. k + 8)
            6
            "xxx"
            "p"
            "hash_diff"
            "ingest"
            "validate"
            (some "k")
            sample_errors
            empty_db).1
        ≡ sample_row ∷ [])
    × (errors_of 2 "extract"
          (replace_validation_errors_for_stage sample_host sample_formats
            (λ k. k + 8)
            6
            "xxx"
            "p"
            "hash_diff"
            "ingest"
            "validate"
            (some "k")
            sample_errors
            empty_db).1
        ≡ errors_of 2 "extract" empty_db)
replace_errors_example =
    replace_errors sample_host sample_formats (λ k. k + 8) 6 "xxx" "p" "hash_diff" "ingest"
      "validate" (some "k") sample_errors empty_db 2 (sample_row ∷ []) 2 "extract" parsed_three
      sample_normal (inr refl)

empty-IsKeyed : IsKeyed empty_db
unfolding AtMostOne
empty-IsKeyed = (λ p. tt, λ u stage_name. tt, λ p. tt, λ p. tt, λ u. tt)

abbrev once_locked : AuditDb
once_locked = (acquire_pipeline_lock sample_formats 0 5 "p" "xx" 7200 empty_db).1

abbrev twice_locked : AuditDb
twice_locked = (acquire_pipeline_lock sample_formats 1 6 "p" "xxx" 7200 once_locked).1

IsKeyed-Operations_example : IsKeyed twice_locked
IsKeyed-Operations_example = IsKeyed-Operations empty-IsKeyed (
    Operations.then (Operations.then begun (acquires empty_db 0 5 "p" "xx" 7200))
      (acquires once_locked 1 6 "p" "xxx" 7200))

third_parsed : parse_run_id sample_formats "xxx" ≡ ok 2
unfolding parse_run_id
third_parsed = refl

locks_refine_example :
    ((acquire_pipeline_lock sample_formats 1 6 "p" "xxx" 7200 once_locked).0
      ≡ ok (grants 6 (holds once_locked "p")))
    × ((q : String)
        → holds twice_locked q
          ≡ grant 6 "p" (record { run = 2; until = 1 + 7200 * 1_000_000 }) (holds once_locked) q)
    × ((release_pipeline_lock sample_formats "p" "xxx" once_locked).0 ≡ ok tt)
    × ((q : String)
        → holds (release_pipeline_lock sample_formats "p" "xxx" once_locked).1 q
          ≡ drop "p" 2 (holds once_locked) q)
locks_refine_example =
    locks_refine sample_formats "p" "xxx" 2 once_locked third_parsed
      (IsKeyed-Operation (acquires empty_db 0 5 "p" "xx" 7200) empty-IsKeyed) 1 6 7200
