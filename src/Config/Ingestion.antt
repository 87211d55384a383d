-- ===== src/Config/Ingestion.antt =====
-- `IngestionRunConfig` of ingestion_airflow/config.py: the hash-diff ingest.
pub mod Valid
use ingestion_airflow.Common.{ℕ, String, Bool, Option, none, some, List, [], ◌∷◌}
use ingestion_airflow.Py.Exc.{Result, ok, ◌>>=◌, ◌>>◌}
use ingestion_airflow.Py.Int.{ℤ}
use ingestion_airflow.Py.Value.{Host}
use ingestion_airflow.Py.Dict.{DictOf, Dict, subscript}
use ingestion_airflow.Config.Parse.{
  resolve_required, resolve_optional, require_fields, parse_positive_ints, parse_contract_version,
  parse_landing_config, parse_replay_input, parse_watermark_mode, build_pipeline_id,
}
use ingestion_airflow.Config.Steps.{
  subscript_text, parse_flag, resolve_audit_dsn, require_admin_dsn, refuse_delta_object_key,
  require_parent_run_id, parse_output_plugin, parse_replica_identity_mode, parse_replication_dsn,
  parse_idle_timeout,
}

pub record IngestionRunConfig : Type 0 where
  pub contracts_service_url : String
  pub audit_dsn : String
  pub namespace : String
  pub name : String
  pub contract_version : Option String
  pub source_dsn : String
  pub source_table : String
  pub target_dsn : String
  pub target_table_curated : String
  pub landing_s3_bucket : String
  pub landing_s3_prefix : String
  pub landing_s3_endpoint_url : Option String
  pub landing_s3_region : Option String
  pub landing_s3_verify_ssl : Bool
  pub source_batch_size : ℤ
  pub merge_load_batch_size : ℤ
  pub upsert_batch_size : ℤ

unfoldable pub pipeline_id : IngestionRunConfig → String
pipeline_id config = build_pipeline_id config.namespace config.name "hash_diff"

abbrev pub required_fields : List String
required_fields =
    "namespace" ∷ "name" ∷ "source_dsn" ∷ "source_table" ∷ "target_dsn" ∷ "target_table_curated"
    ∷ []

abbrev pub field_defaults : DictOf ℕ
field_defaults =
    ("source_batch_size", 1000) ∷ ("merge_load_batch_size", 1000) ∷ ("upsert_batch_size", 1000) ∷ []

unfoldable pub from_dagrun_conf : Host → Dict → Result IngestionRunConfig
from_dagrun_conf host conf = do
  require_fields conf required_fields
  batch_sizes ← parse_positive_ints host conf field_defaults
  landing ← parse_landing_config host conf
  contracts_service_url ←
      resolve_required host conf "contracts_service_url" (some "CONTRACTS_SERVICE_URL")
  audit_dsn ← resolve_audit_dsn host
  namespace ← subscript_text host conf "namespace"
  name ← subscript_text host conf "name"
  source_dsn ← subscript_text host conf "source_dsn"
  source_table ← subscript_text host conf "source_table"
  target_dsn ← subscript_text host conf "target_dsn"
  target_table_curated ← subscript_text host conf "target_table_curated"
  source_batch_size ← subscript batch_sizes "source_batch_size"
  merge_load_batch_size ← subscript batch_sizes "merge_load_batch_size"
  upsert_batch_size ← subscript batch_sizes "upsert_batch_size"
  ok (record {
    contracts_service_url = contracts_service_url;
    audit_dsn = audit_dsn;
    namespace = namespace;
    name = name;
    contract_version = parse_contract_version host conf;
    source_dsn = source_dsn;
    source_table = source_table;
    target_dsn = target_dsn;
    target_table_curated = target_table_curated;
    landing_s3_bucket = landing.0;
    landing_s3_prefix = landing.1;
    landing_s3_endpoint_url = landing.2;
    landing_s3_region = landing.3;
    landing_s3_verify_ssl = landing.4;
    source_batch_size = source_batch_size;
    merge_load_batch_size = merge_load_batch_size;
    upsert_batch_size = upsert_batch_size;
  })
