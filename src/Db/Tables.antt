-- ===== src/Db/Tables.antt =====
-- The tables of ingestion_airflow/db/audit_tables.py. A time is a number of microseconds, a UUID the
-- number that it is.
use ingestion_airflow.Common.{ℕ, String, ◌≡◌, Option, none, some, List}
use ingestion_airflow.Py.Exc.{Result, ok, raised, raise, value_error}
use ingestion_airflow.Py.Int.{ℤ}
use ingestion_airflow.Py.Dict.{Dict}

pub record PipelineState : Type 0 where
  pub pipeline_id : String
  pub last_run_at : Option ℕ
  pub last_success_at : Option ℕ
  pub last_status : Option String
  pub last_error : Option String
  pub updated_at : ℕ

pub record RunAudit : Type 0 where
  pub run_id : ℕ
  pub pipeline_id : String
  pub strategy : String
  pub run_mode : String
  pub contract_id : String
  pub version : String
  pub checksum : String
  pub started_at : ℕ
  pub finished_at : Option ℕ
  pub read_count : ℤ
  pub insert_count : ℤ
  pub update_count : ℤ
  pub delete_count : ℤ
  pub unchanged_count : ℤ
  pub status : String
  pub metrics_json : Option Dict
  pub error_text : Option String

pub record StageAudit : Type 0 where
  pub run_id : ℕ
  pub stage_name : String
  pub status : String
  pub started_at : ℕ
  pub finished_at : Option ℕ
  pub metrics_json : Option Dict
  pub error_text : Option String

pub record PipelineLock : Type 0 where
  pub pipeline_id : String
  pub run_id : ℕ
  pub locked_at : ℕ
  pub lock_until : ℕ

pub record PipelineCheckpoint : Type 0 where
  pub pipeline_id : String
  pub run_id : ℕ
  pub checkpoint_json : Dict
  pub updated_at : ℕ

pub record ValidationErrorAudit : Type 0 where
  pub error_id : ℕ
  pub run_id : ℕ
  pub pipeline_id : String
  pub strategy : String
  pub run_mode : String
  pub stage_name : String
  pub row_number : Option ℤ
  pub field : String
  pub code : String
  pub message : String
  pub constraint : Option String
  pub actual_value : Option String
  pub error_object_key : Option String
  pub details_json : Dict
  pub created_at : ℕ

-- The schema `ingestion_meta`.
pub record AuditDb : Type 0 where
  pub pipeline_state : List PipelineState
  pub run_audit : List RunAudit
  pub stage_audit : List StageAudit
  pub pipeline_lock : List PipelineLock
  pub pipeline_checkpoint : List PipelineCheckpoint
  pub validation_error_audit : List ValidationErrorAudit

-- The texts of UUIDs and times: `uuid.UUID(text)`, `str(uuid)` and `datetime.isoformat`.
pub record Formats : Type 0 where
  pub uuid : String → Option ℕ
  pub show_uuid : ℕ → String
  pub uuid-show_uuid : (u : ℕ) → uuid (show_uuid u) ≡ some u
  pub isoformat : ℕ → String

-- What a call returns or raises, and the tables after it.
abbrev pub Action {ℓ} : Type ℓ → Type ℓ
Action A = AuditDb → Result A × AuditDb

abbrev pub uuid_or_raise : Option ℕ → Result ℕ
uuid_or_raise none = raise value_error "badly formed hexadecimal UUID string"
uuid_or_raise (some u) = ok u

unfoldable pub parse_run_id : Formats → String → Result ℕ
parse_run_id formats run_id = uuid_or_raise (formats.uuid run_id)

-- A call parses its run id before it opens a transaction.
abbrev pub with_run_id {ℓ} : {A : Type ℓ} → Result ℕ → (ℕ → Action A) → Action A
with_run_id (ok run_uuid) f db = f run_uuid db
with_run_id (raised e) f db = (raised e, db)
