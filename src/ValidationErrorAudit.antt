-- ===== src/ValidationErrorAudit.antt =====
-- ingestion_airflow/validation_error_audit.py: validation errors from an artifact into the audit table.
mod Tests
pub mod Ingest
pub mod Contents
use ingestion_airflow.Common.{
  ℕ, suc, String, Bool, true, false, Option, none, some, List, [], ◌∷◌, ◌++◌, leb, length, str_eq,
  if◌then◌else◌,
}
use ingestion_airflow.Py.Exc.{Exception, Result, ok, raised}
use ingestion_airflow.Py.Text.Strip.{strip}
use ingestion_airflow.Py.Value.{Host, Value, null, text, dict, str}
use ingestion_airflow.Py.Dict.{Dict, get, insert, entries}
use ingestion_airflow.Config.Parse.{or_none}
use ingestion_airflow.Db.Tables.{Formats, Action}
use ingestion_airflow.Db.Stages.{or_empty}
use ingestion_airflow.Db.ValidationErrors.{replace_validation_errors_for_stage}

abbrev pub validation_error_batch_limit : ℕ
validation_error_batch_limit = 10_000

unfoldable pub text_or_none : Host → Value → Option String
text_or_none host null = none
text_or_none host value = or_none (strip (str host value))

abbrev put_both : String → String → Option String → Dict → Dict
put_both k j none payload = payload
put_both k j (some s) payload = insert j (text s) (insert k (text s) payload)

abbrev put_text : String → Option String → Dict → Dict
put_text k none payload = payload
put_text k (some s) payload = insert k (text s) payload

abbrev put_value : String → Value → Dict → Dict
put_value k null payload = payload
put_value k value payload = insert k value payload

unfoldable pub put_values : Dict → List String → Dict → Dict
put_values exc [] payload = payload
put_values exc (key ∷ keys) payload = put_values exc keys (put_value key (get exc key) payload)

-- `exc` has the attributes of the exception; `getattr(exc, name, None)` is `get`.
unfoldable pub extract_validation_error_context : Host → Dict → Dict
unfolding put_values
extract_validation_error_context host exc =
    let with_errors =
      put_both "validation_error_object_key" "error_object_key"
        (text_or_none host (get exc "error_object_key")) [] in
    let with_manifest =
      put_both "validation_manifest_key" "manifest_key" (text_or_none host (get exc "manifest_key"))
        with_errors in
    let with_accepted =
      put_text "accepted_object_key" (text_or_none host (get exc "accepted_object_key"))
        with_manifest in
    let with_delta =
      put_text "delta_object_key" (text_or_none host (get exc "delta_object_key")) with_accepted in
    put_values exc
      ("invalid_row_count" ∷ "invalid_event_count" ∷ "invalid_transaction_count"
        ∷ "quarantined_event_count" ∷ "quarantined_transaction_count" ∷ [])
      with_delta

-- The client and the artifact as it is read: `connected` is `ObjectStoreClient(config)`, which may
-- raise; opening an artifact may raise, and so may each line; `loads` is `json.loads`.
pub record Reader : Type 0 where
  pub connected : Result (Unit {0})
  pub open_lines : String → Result (List (Result String))
  pub loads : String → Result Value

abbrev pub or_error_key : Option String → Option String → Option String
or_error_key none e = e
or_error_key (some s) e = some s

-- The key of the artifact that a stage's payload names.
unfoldable pub error_key_of : Host → Option Dict → Option String
error_key_of host stage_payload =
    let payload = or_empty stage_payload in
    or_error_key (text_or_none host (get payload "validation_error_object_key"))
      (text_or_none host (get payload "error_object_key"))

abbrev pub collected : List Dict → Value → List Dict
collected rows (dict fs) = rows ++ entries fs ∷ []
collected rows other = rows

-- One line: blank ones and values that are no objects are passed over.
unfoldable pub collect_line :
    (loads : String → Result Value) → List Dict → String → Result (List Dict)
collect_line loads rows raw_line =
    let line = strip raw_line in
    if str_eq line ""
    then ok rows
    else elim (loads line) [ ok v ↦ ok (collected rows v) | raised e ↦ raised e ]

-- The loop over the lines, left once the limit is reached by a row that was collected.
unfoldable pub collect_rows :
    (limit : ℕ) → (String → Result Value) → List Dict → List (Result String) → Result (List Dict)
unfolding collect_line
collect_rows limit loads rows [] = ok rows
collect_rows limit loads rows (raised e ∷ lines) = raised e
collect_rows limit loads rows (ok line ∷ lines) = elim (collect_line loads rows line) [
  | raised e ↦ raised e
  | ok next ↦ elim (leb limit (length next)) [
    | true ↦ ok next
    | false ↦ collect_rows limit loads next lines
  ]
]

unfoldable pub read_errors : Reader → ℕ → String → Result (List Dict)
unfolding collect_rows
read_errors reader limit key = elim (reader.open_lines key) [
  | raised e ↦ raised e
  | ok lines ↦ collect_rows limit reader.loads [] lines
]

-- The arguments that identify the stage.
pub record StageContext : Type 0 where
  pub run_id : String
  pub pipeline_id : String
  pub strategy : String
  pub run_mode : String
  pub stage_name : String

-- A failure to read the artifact is logged, and nothing is ingested.
abbrev pub ingest_rows :
    Host → Formats → (ℕ → ℕ) → ℕ → StageContext → String → Result (List Dict) → Action ℕ
ingest_rows host formats fresh now c key (raised e) db = (ok 0, db)
ingest_rows host formats fresh now c key (ok rows) db =
    replace_validation_errors_for_stage host formats fresh now c.run_id c.pipeline_id c.strategy
      c.run_mode c.stage_name (some key) rows db

abbrev ingest_key : Host → Formats → Reader → (ℕ → ℕ) → ℕ → StageContext → Option String → Action ℕ
ingest_key host formats reader fresh now c none db = (ok 0, db)
ingest_key host formats reader fresh now c (some key) db = elim reader.connected [
  | raised e ↦ (raised e, db)
  | ok _ ↦
      ingest_rows host formats fresh now c key (read_errors reader validation_error_batch_limit key)
        db
]

unfoldable pub persist_validation_errors_from_artifact :
    Host → Formats → Reader → (fresh : ℕ → ℕ) → (now : ℕ) → StageContext → Option Dict → Action ℕ
persist_validation_errors_from_artifact host formats reader fresh now c stage_payload =
    ingest_key host formats reader fresh now c (error_key_of host stage_payload)
