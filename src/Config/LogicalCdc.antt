-- ===== src/Config/LogicalCdc.antt =====
-- `LogicalCdcRunConfig` of ingestion_airflow/config.py.
pub mod Valid
use ingestion_airflow.Common.{ℕ, String, Bool, Option, none, some, List, [], ◌∷◌}
use ingestion_airflow.Py.Exc.{Result, ok, ◌>>=◌, ◌>>◌}
use ingestion_airflow.Py.Int.{ℤ}
use ingestion_airflow.Py.Value.{Host}
use ingestion_airflow.Py.Dict.{DictOf, Dict, subscript}
use ingestion_airflow.Config.Parse.{
  resolve_required, resolve_optional, require_fields, parse_positive_ints, parse_contract_version,
  parse_landing_config, parse_replay_input, parse_watermark_mode, build_pipeline_id,
}
use ingestion_airflow.Config.Steps.{
  subscript_text, parse_flag, resolve_audit_dsn, require_admin_dsn, refuse_delta_object_key,
  require_parent_run_id, parse_output_plugin, parse_replica_identity_mode, parse_replication_dsn,
  parse_idle_timeout,
}

pub record LogicalCdcRunConfig : Type 0 where
  pub contracts_service_url : String
  pub audit_dsn : String
  pub namespace : String
  pub name : String
  pub contract_version : Option String
  pub source_dsn : String
  pub source_replication_dsn : String
  pub source_admin_dsn : Option String
  pub source_table : String
  pub source_publication_name : String
  pub source_slot_name : String
  pub output_plugin : String
  pub target_dsn : String
  pub target_table_curated : String
  pub landing_s3_bucket : String
  pub landing_s3_prefix : String
  pub landing_s3_endpoint_url : Option String
  pub landing_s3_region : Option String
  pub landing_s3_verify_ssl : Bool
  pub auto_setup_logical_cdc : Bool
  pub auto_configure_wal_settings : Bool
  pub replace_existing_publication : Bool
  pub create_slot_if_missing : Bool
  pub replica_identity_mode : String
  pub desired_max_replication_slots : ℤ
  pub desired_max_wal_senders : ℤ
  pub max_extract_seconds : ℤ
  pub idle_timeout_seconds : Option ℤ
  pub apply_load_batch_size : ℤ
  pub upsert_batch_size : ℤ

unfoldable pub pipeline_id : LogicalCdcRunConfig → String
pipeline_id config = build_pipeline_id config.namespace config.name "logical_cdc"

abbrev pub required_fields : List String
required_fields =
    "namespace" ∷ "name" ∷ "source_dsn" ∷ "source_replication_dsn" ∷ "source_table"
    ∷ "source_publication_name" ∷ "source_slot_name" ∷ "target_dsn" ∷ "target_table_curated" ∷ []

abbrev pub field_defaults : DictOf ℕ
field_defaults =
    ("max_extract_seconds", 30)
    ∷ ("apply_load_batch_size", 1000)
    ∷ ("upsert_batch_size", 1000)
    ∷ ("desired_max_replication_slots", 10)
    ∷ ("desired_max_wal_senders", 10)
    ∷ []

unfoldable pub from_dagrun_conf : Host → Dict → Result LogicalCdcRunConfig
from_dagrun_conf host conf = do
  require_fields conf required_fields
  batch_sizes ← parse_positive_ints host conf field_defaults
  landing ← parse_landing_config host conf
  output_plugin ← parse_output_plugin host conf
  replica_identity_mode ← parse_replica_identity_mode host conf
  auto_setup_logical_cdc ← parse_flag conf "auto_setup_logical_cdc" "false"
  let source_admin_dsn = resolve_optional host conf "source_admin_dsn" (some "SOURCE_ADMIN_DSN")
  require_admin_dsn auto_setup_logical_cdc source_admin_dsn
  source_replication_dsn ← parse_replication_dsn host conf
  idle_timeout_seconds ← parse_idle_timeout host conf
  contracts_service_url ←
      resolve_required host conf "contracts_service_url" (some "CONTRACTS_SERVICE_URL")
  audit_dsn ← resolve_audit_dsn host
  namespace ← subscript_text host conf "namespace"
  name ← subscript_text host conf "name"
  source_dsn ← subscript_text host conf "source_dsn"
  source_table ← subscript_text host conf "source_table"
  source_publication_name ← subscript_text host conf "source_publication_name"
  source_slot_name ← subscript_text host conf "source_slot_name"
  target_dsn ← subscript_text host conf "target_dsn"
  target_table_curated ← subscript_text host conf "target_table_curated"
  auto_configure_wal_settings ← parse_flag conf "auto_configure_wal_settings" "false"
  replace_existing_publication ← parse_flag conf "replace_existing_publication" "false"
  create_slot_if_missing ← parse_flag conf "create_slot_if_missing" "true"
  desired_max_replication_slots ← subscript batch_sizes "desired_max_replication_slots"
  desired_max_wal_senders ← subscript batch_sizes "desired_max_wal_senders"
  max_extract_seconds ← subscript batch_sizes "max_extract_seconds"
  apply_load_batch_size ← subscript batch_sizes "apply_load_batch_size"
  upsert_batch_size ← subscript batch_sizes "upsert_batch_size"
  ok (record {
    contracts_service_url = contracts_service_url;
    audit_dsn = audit_dsn;
    namespace = namespace;
    name = name;
    contract_version = parse_contract_version host conf;
    source_dsn = source_dsn;
    source_replication_dsn = source_replication_dsn;
    source_admin_dsn = source_admin_dsn;
    source_table = source_table;
    source_publication_name = source_publication_name;
    source_slot_name = source_slot_name;
    output_plugin = output_plugin;
    target_dsn = target_dsn;
    target_table_curated = target_table_curated;
    landing_s3_bucket = landing.0;
    landing_s3_prefix = landing.1;
    landing_s3_endpoint_url = landing.2;
    landing_s3_region = landing.3;
    landing_s3_verify_ssl = landing.4;
    auto_setup_logical_cdc = auto_setup_logical_cdc;
    auto_configure_wal_settings = auto_configure_wal_settings;
    replace_existing_publication = replace_existing_publication;
    create_slot_if_missing = create_slot_if_missing;
    replica_identity_mode = replica_identity_mode;
    desired_max_replication_slots = desired_max_replication_slots;
    desired_max_wal_senders = desired_max_wal_senders;
    max_extract_seconds = max_extract_seconds;
    idle_timeout_seconds = idle_timeout_seconds;
    apply_load_batch_size = apply_load_batch_size;
    upsert_batch_size = upsert_batch_size;
  })
