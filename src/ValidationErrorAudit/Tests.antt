-- ===== src/ValidationErrorAudit/Tests.antt =====
-- The ingestion of ingestion_airflow/validation_error_audit.py run on sample artifacts.
use ingestion_airflow.Common.{
  ◌≤◌, ◌≡◌, refl, inr, String, List, none, some, [], ◌∷◌, length, str_eq, if◌then◌else◌, arith,
}
use ingestion_airflow.Py.Exc.{Result, ok, raised, raise, value_error}
use ingestion_airflow.Py.Text.Strip.{strip}
use ingestion_airflow.Py.Value.{text, dict, field, end, str}
use ingestion_airflow.Py.Dict.{Dict, get}
use ingestion_airflow.Samples.{sample_host, sample_formats, empty_db}
use ingestion_airflow.Db.ValidationErrors.{replace_validation_errors_for_stage}
use ingestion_airflow.ValidationErrorAudit.{
  Reader, StageContext, text_or_none, error_key_of, collect_line, collect_rows, read_errors,
  persist_validation_errors_from_artifact,
}
use ingestion_airflow.ValidationErrorAudit.Ingest.{read_errors-le-limit}
use ingestion_airflow.ValidationErrorAudit.Contents.{
  artifact_of, contents_of, line_object, outcome, ingest_artifact,
}

abbrev sample_reader : Reader
sample_reader = record {
  connected = ok tt;
  open_lines = λ key. ok (ok "row" ∷ ok " " ∷ ok "row" ∷ ok "bad" ∷ []);
  loads = λ line.
      if str_eq line "bad"
      then raise value_error "bad"
      else ok (dict (field "field" (text "id") end));
}

abbrev sample_stage : StageContext
sample_stage = record {
  run_id = "xxx";
  pipeline_id = "p";
  strategy = "hash_diff";
  run_mode = "ingest";
  stage_name = "validate";
}

abbrev sample_row : Dict
sample_row = ("field", text "id") ∷ []

-- The second row reaches the limit, so the line that is broken is never read.
two_rows : read_errors sample_reader 2 "k" ≡ ok (sample_row ∷ sample_row ∷ [])
unfolding read_errors collect_rows collect_line strip
two_rows = refl

read_errors-le-limit_example : length (sample_row ∷ sample_row ∷ []) ≤ 2
read_errors-le-limit_example =
    read_errors-le-limit sample_reader 2 "k" (sample_row ∷ sample_row ∷ []) (omega arith) two_rows

abbrev sample_payload : Dict
sample_payload = ("error_object_key", text "k") ∷ []

abbrev sample_lines : List (Result String)
sample_lines = ok "row" ∷ ok " " ∷ ok "row" ∷ ok "bad" ∷ []

sample_named : text_or_none sample_host (get sample_payload "error_object_key") ≡ some "k"
unfolding text_or_none get str strip
sample_named = refl

sample_unnamed : text_or_none sample_host (get sample_payload "validation_error_object_key") ≡ none
unfolding text_or_none get str strip
sample_unnamed = refl

ingest_artifact_example :
    persist_validation_errors_from_artifact sample_host sample_formats sample_reader
      (λ k. k)
      6
      sample_stage
      (some sample_payload)
      empty_db
    ≡ elim (outcome 10_000 (artifact_of sample_reader "k")) [
      | raised e ↦ (ok 0, empty_db)
      | ok rows ↦
          replace_validation_errors_for_stage sample_host sample_formats
            (λ k. k)
            6
            "xxx"
            "p"
            "hash_diff"
            "ingest"
            "validate"
            (some "k")
            rows
            empty_db
    ]
ingest_artifact_example =
    ingest_artifact sample_host sample_formats sample_reader (λ k. k) 6 sample_stage sample_payload
      "k" empty_db (inr (sample_unnamed, sample_named))

-- The broken line stands after the limit, or before it.
sample_outcomes :
    (outcome 2 (contents_of sample_reader.loads sample_lines) ≡ ok (sample_row ∷ sample_row ∷ []))
    × (outcome 3 (contents_of sample_reader.loads sample_lines) ≡ raise value_error "bad")
unfolding contents_of line_object strip
sample_outcomes = (refl, refl)

abbrev unconnected_reader : Reader
unconnected_reader = record sample_reader { connected = raise value_error "no endpoint" }

-- The client is made outside the `try`.
unconnected :
    persist_validation_errors_from_artifact sample_host sample_formats unconnected_reader
      (λ k. k)
      6
      sample_stage
      (some sample_payload)
      empty_db
    ≡ (raise value_error "no endpoint", empty_db)
unfolding persist_validation_errors_from_artifact error_key_of text_or_none get str strip
unconnected = refl
