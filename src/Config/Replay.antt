-- ===== src/Config/Replay.antt =====
-- `ReplayRunConfig` of ingestion_airflow/config.py: the hash-diff replay.
pub mod Valid
use ingestion_airflow.Common.{ℕ, String, Bool, Option, none, some, List, [], ◌∷◌}
use ingestion_airflow.Py.Exc.{Result, ok, ◌>>=◌, ◌>>◌}
use ingestion_airflow.Py.Int.{ℤ}
use ingestion_airflow.Py.Value.{Host}
use ingestion_airflow.Py.Dict.{DictOf, Dict, subscript}
use ingestion_airflow.Config.Parse.{
  resolve_required, resolve_optional, require_fields, parse_positive_ints, parse_contract_version,
  parse_landing_config, parse_replay_input, parse_watermark_mode, build_pipeline_id,
}
use ingestion_airflow.Config.Steps.{
  subscript_text, parse_flag, resolve_audit_dsn, require_admin_dsn, refuse_delta_object_key,
  require_parent_run_id, parse_output_plugin, parse_replica_identity_mode, parse_replication_dsn,
  parse_idle_timeout,
}

pub record ReplayRunConfig : Type 0 where
  pub contracts_service_url : String
  pub audit_dsn : String
  pub namespace : String
  pub name : String
  pub contract_version : Option String
  pub accepted_object_key : Option String
  pub parent_run_id : Option String
  pub replay_reason : Option String
  pub target_dsn : String
  pub target_table_curated : String
  pub landing_s3_bucket : String
  pub landing_s3_prefix : String
  pub landing_s3_endpoint_url : Option String
  pub landing_s3_region : Option String
  pub landing_s3_verify_ssl : Bool
  pub merge_load_batch_size : ℤ
  pub source_batch_size : ℤ
  pub upsert_batch_size : ℤ

unfoldable pub pipeline_id : ReplayRunConfig → String
pipeline_id config = build_pipeline_id config.namespace config.name "hash_diff"

abbrev pub required_fields : List String
required_fields = "namespace" ∷ "name" ∷ "target_dsn" ∷ "target_table_curated" ∷ []

abbrev pub field_defaults : DictOf ℕ
field_defaults =
    ("merge_load_batch_size", 1000) ∷ ("source_batch_size", 1000) ∷ ("upsert_batch_size", 1000) ∷ []

unfoldable pub from_dagrun_conf : Host → Dict → Result ReplayRunConfig
from_dagrun_conf host conf = do
  require_fields conf required_fields
  batch_sizes ← parse_positive_ints host conf field_defaults
  landing ← parse_landing_config host conf
  replay_input ← parse_replay_input host conf "accepted_object_key"
  let replay_reason = resolve_optional host conf "replay_reason" none
  contracts_service_url ←
      resolve_required host conf "contracts_service_url" (some "CONTRACTS_SERVICE_URL")
  audit_dsn ← resolve_audit_dsn host
  namespace ← subscript_text host conf "namespace"
  name ← subscript_text host conf "name"
  target_dsn ← subscript_text host conf "target_dsn"
  target_table_curated ← subscript_text host conf "target_table_curated"
  merge_load_batch_size ← subscript batch_sizes "merge_load_batch_size"
  source_batch_size ← subscript batch_sizes "source_batch_size"
  upsert_batch_size ← subscript batch_sizes "upsert_batch_size"
  ok (record {
    contracts_service_url = contracts_service_url;
    audit_dsn = audit_dsn;
    namespace = namespace;
    name = name;
    contract_version = parse_contract_version host conf;
    accepted_object_key = replay_input.0;
    parent_run_id = replay_input.1;
    replay_reason = replay_reason;
    target_dsn = target_dsn;
    target_table_curated = target_table_curated;
    landing_s3_bucket = landing.0;
    landing_s3_prefix = landing.1;
    landing_s3_endpoint_url = landing.2;
    landing_s3_region = landing.3;
    landing_s3_verify_ssl = landing.4;
    merge_load_batch_size = merge_load_batch_size;
    source_batch_size = source_batch_size;
    upsert_batch_size = upsert_batch_size;
  })
