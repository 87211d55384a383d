-- ===== src/Samples.antt =====
-- Sample environments, text formats and tables that the tests of the components run on.
use ingestion_airflow.Common.{
  ℕ, zero, suc, String, ◌≡◌, refl, ap, Option, none, some, [], str_eq, if◌then◌else◌,
}
use ingestion_airflow.Py.Value.{Host}
use ingestion_airflow.Db.Tables.{AuditDb, Formats}

-- An environment with the settings of a deployment.
abbrev pub sample_env : String → Option String
sample_env name =
    if str_eq name "AUDIT_DATABASE_DSN"
    then some "postgresql://audit"
    else if str_eq name "CONTRACTS_SERVICE_URL"
    then some " http://contracts "
    else if str_eq name "LANDING_S3_BUCKET"
    then some "landing"
    else if str_eq name "AWS_ACCESS_KEY_ID"
    then some "key"
    else if str_eq name "AWS_SECRET_ACCESS_KEY"
    then some "secret"
    else none

abbrev pub sample_host : Host
sample_host = record { env = sample_env; repr = λ v. "value"; wide_digit = λ c. none }

-- A stand-in for the text of a UUID: one mark more than the number.
abbrev marks : String → ℕ
marks String.[] = zero
marks (String.◌∷◌ c s) = suc (marks s)

abbrev tally : ℕ → String
tally zero = ""
tally (suc n) = String.◌∷◌ "x" (tally n)

pub marks-tally : (n : ℕ) → marks (tally n) ≡ n
marks-tally zero = refl
marks-tally (suc n) = ap suc (marks-tally n)

abbrev pub sample_uuid : String → Option ℕ
sample_uuid String.[] = none
sample_uuid (String.◌∷◌ c s) = some (marks s)

abbrev pub sample_formats : Formats
sample_formats = record {
  uuid = sample_uuid;
  show_uuid = λ n. String.◌∷◌ "x" (tally n);
  uuid-show_uuid = λ n. ap some (marks-tally n);
  isoformat = λ n. "time";
}

abbrev pub empty_db : AuditDb
empty_db = record {
  pipeline_state = [];
  run_audit = [];
  stage_audit = [];
  pipeline_lock = [];
  pipeline_checkpoint = [];
  validation_error_audit = [];
}
