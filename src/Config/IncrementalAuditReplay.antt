-- ===== src/Config/IncrementalAuditReplay.antt =====
-- `IncrementalAuditReplayRunConfig` of ingestion_airflow/config.py.
pub mod Valid
use ingestion_airflow.Common.{ℕ, String, Bool, Option, none, some, List, [], ◌∷◌}
use ingestion_airflow.Py.Exc.{Result, ok, ◌>>=◌, ◌>>◌}
use ingestion_airflow.Py.Int.{ℤ}
use ingestion_airflow.Py.Value.{Host}
use ingestion_airflow.Py.Dict.{DictOf, Dict, subscript}
use ingestion_airflow.Config.Parse.{
  resolve_required, resolve_optional, require_fields, parse_positive_ints, parse_contract_version,
  parse_landing_config, parse_replay_input, parse_watermark_mode, build_pipeline_id,
}
use ingestion_airflow.Config.Steps.{
  subscript_text, parse_flag, resolve_audit_dsn, require_admin_dsn, refuse_delta_object_key,
  require_parent_run_id, parse_output_plugin, parse_replica_identity_mode, parse_replication_dsn,
  parse_idle_timeout,
}

pub record IncrementalAuditReplayRunConfig : Type 0 where
  pub contracts_service_url : String
  pub audit_dsn : String
  pub namespace : String
  pub name : String
  pub contract_version : Option String
  pub parent_run_id : String
  pub replay_reason : Option String
  pub target_dsn : String
  pub target_table_curated : String
  pub landing_s3_bucket : String
  pub landing_s3_prefix : String
  pub landing_s3_endpoint_url : Option String
  pub landing_s3_region : Option String
  pub landing_s3_verify_ssl : Bool
  pub apply_load_batch_size : ℤ
  pub upsert_batch_size : ℤ

unfoldable pub pipeline_id : IncrementalAuditReplayRunConfig → String
pipeline_id config = build_pipeline_id config.namespace config.name "incremental_audit"

abbrev pub required_fields : List String
required_fields =
    "namespace" ∷ "name" ∷ "parent_run_id" ∷ "target_dsn" ∷ "target_table_curated" ∷ []

abbrev pub field_defaults : DictOf ℕ
field_defaults = ("apply_load_batch_size", 1000) ∷ ("upsert_batch_size", 1000) ∷ []

unfoldable pub from_dagrun_conf : Host → Dict → Result IncrementalAuditReplayRunConfig
from_dagrun_conf host conf = do
  refuse_delta_object_key host conf
  require_fields conf required_fields
  batch_sizes ← parse_positive_ints host conf field_defaults
  landing ← parse_landing_config host conf
  parent_run_id ← require_parent_run_id host conf
  let replay_reason = resolve_optional host conf "replay_reason" none
  contracts_service_url ←
      resolve_required host conf "contracts_service_url" (some "CONTRACTS_SERVICE_URL")
  audit_dsn ← resolve_audit_dsn host
  namespace ← subscript_text host conf "namespace"
  name ← subscript_text host conf "name"
  target_dsn ← subscript_text host conf "target_dsn"
  target_table_curated ← subscript_text host conf "target_table_curated"
  apply_load_batch_size ← subscript batch_sizes "apply_load_batch_size"
  upsert_batch_size ← subscript batch_sizes "upsert_batch_size"
  ok (record {
    contracts_service_url = contracts_service_url;
    audit_dsn = audit_dsn;
    namespace = namespace;
    name = name;
    contract_version = parse_contract_version host conf;
    parent_run_id = parent_run_id;
    replay_reason = replay_reason;
    target_dsn = target_dsn;
    target_table_curated = target_table_curated;
    landing_s3_bucket = landing.0;
    landing_s3_prefix = landing.1;
    landing_s3_endpoint_url = landing.2;
    landing_s3_region = landing.3;
    landing_s3_verify_ssl = landing.4;
    apply_load_batch_size = apply_load_batch_size;
    upsert_batch_size = upsert_batch_size;
  })
