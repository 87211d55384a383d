-- ===== src/Config/Tests.antt =====
-- The parsers of ingestion_airflow/config.py run on sample configurations.
mod Fields
use ingestion_airflow.Common.{◌≡◌, refl, ◌↔◌, true, false, none, some, [], ◌∷◌}
use ingestion_airflow.Py.Exc.{ok, raise, value_error}
use ingestion_airflow.Py.Int.{pos, int_of_text, show_int}
use ingestion_airflow.Py.Value.{int, text, str, int_of}
use ingestion_airflow.Py.Dict.{Dict, get, subscript}
use ingestion_airflow.Samples.{sample_host}
use ingestion_airflow.Py.Text.{concat, join, is_one_of, sorted}
use ingestion_airflow.Py.Text.Strip.{is_space, strip_left, strip_right, strip, lower}
use ingestion_airflow.Config.Parse.{
  parse_bool, candidate, resolve_required, trimmed_or_none, resolve_optional, require_fields,
  read_ints, parse_positive_ints, parse_contract_version, parse_landing_config, parse_replay_input,
  parse_watermark_mode,
}
use ingestion_airflow.Config.Steps.{
  subscript_text, parse_flag, resolve_audit_dsn, require_admin_dsn, refuse_delta_object_key,
  require_parent_run_id, parse_output_plugin, parse_replica_identity_mode, parse_replication_dsn,
  parse_idle_timeout,
}
use ingestion_airflow.Config.Parse.Ints.{IsParsed, parse_positive_ints_iff}
use ingestion_airflow.Config.Parse.Flags.{IsReplayInput, parse_replay_input_iff}
use ingestion_airflow.Config.Ingestion.{IngestionRunConfig, from_dagrun_conf as ingestion_of}
use ingestion_airflow.Config.Ingestion.Valid.{IsValid as IsIngestion, ingestion_config_iff}
use ingestion_airflow.Config.Replay.{ReplayRunConfig, from_dagrun_conf as replay_of}
use ingestion_airflow.Config.Replay.Valid.{IsValid as IsReplay, replay_config_iff}
use ingestion_airflow.Config.IncrementalAudit.{
  IncrementalAuditRunConfig, from_dagrun_conf as incremental_audit_of,
}
use ingestion_airflow.Config.IncrementalAudit.Valid.{
  IsValid as IsIncrementalAudit, incremental_audit_config_iff,
}
use ingestion_airflow.Config.IncrementalAuditReplay.{
  IncrementalAuditReplayRunConfig, from_dagrun_conf as incremental_audit_replay_of,
}
use ingestion_airflow.Config.IncrementalAuditReplay.Valid.{
  IsValid as IsIncrementalAuditReplay, incremental_audit_replay_config_iff,
}
use ingestion_airflow.Config.LogicalCdc.{LogicalCdcRunConfig, from_dagrun_conf as logical_cdc_of}
use ingestion_airflow.Config.LogicalCdc.Valid.{IsValid as IsLogicalCdc, logical_cdc_config_iff}
use ingestion_airflow.Config.LogicalCdcReplay.{
  LogicalCdcReplayRunConfig, from_dagrun_conf as logical_cdc_replay_of,
}
use ingestion_airflow.Config.LogicalCdcReplay.Valid.{
  IsValid as IsLogicalCdcReplay, logical_cdc_replay_config_iff,
}

abbrev pub sample_conf : Dict
sample_conf =
    ("namespace", text "sales")
    ∷ ("name", text "orders")
    ∷ ("contract_version", int (pos 7))
    ∷ ("source_dsn", text "postgresql://source")
    ∷ ("source_table", text "orders")
    ∷ ("source_audit_table", text "orders_audit")
    ∷ ("source_replication_dsn", text " postgresql://replication")
    ∷ ("source_publication_name", text "orders_pub")
    ∷ ("source_slot_name", text "orders_slot")
    ∷ ("target_dsn", text "postgresql://target")
    ∷ ("target_table_curated", text "curated.orders")
    ∷ ("landing_s3_verify_ssl", text " Yes ")
    ∷ ("parent_run_id", text " r1 ")
    ∷ ("source_batch_size", text "500")
    ∷ []

abbrev pub sample_ingestion : IngestionRunConfig
sample_ingestion = record {
  contracts_service_url = "http://contracts";
  audit_dsn = "postgresql://audit";
  namespace = "sales";
  name = "orders";
  contract_version = some "7";
  source_dsn = "postgresql://source";
  source_table = "orders";
  target_dsn = "postgresql://target";
  target_table_curated = "curated.orders";
  landing_s3_bucket = "landing";
  landing_s3_prefix = "accepted";
  landing_s3_endpoint_url = none;
  landing_s3_region = none;
  landing_s3_verify_ssl = true;
  source_batch_size = pos 500;
  merge_load_batch_size = pos 1000;
  upsert_batch_size = pos 1000;
}

pub ingestion_run : ingestion_of sample_host sample_conf ≡ ok sample_ingestion
unfolding ingestion_of get concat join is_one_of sorted str int_of is_space strip_left strip_right
    strip lower parse_bool candidate resolve_required trimmed_or_none resolve_optional
    require_fields read_ints parse_positive_ints parse_contract_version parse_landing_config
    parse_replay_input parse_watermark_mode subscript_text parse_flag resolve_audit_dsn
    require_admin_dsn refuse_delta_object_key require_parent_run_id parse_output_plugin
    parse_replica_identity_mode parse_replication_dsn parse_idle_timeout int_of_text subscript
    show_int
ingestion_run = refl

ingestion_config_iff_example :
    (ingestion_of sample_host sample_conf ≡ ok sample_ingestion)
    ↔ IsIngestion sample_host sample_conf sample_ingestion
ingestion_config_iff_example = ingestion_config_iff sample_host sample_conf sample_ingestion

abbrev pub sample_replay : ReplayRunConfig
sample_replay = record {
  contracts_service_url = "http://contracts";
  audit_dsn = "postgresql://audit";
  namespace = "sales";
  name = "orders";
  contract_version = some "7";
  accepted_object_key = none;
  parent_run_id = some "r1";
  replay_reason = none;
  target_dsn = "postgresql://target";
  target_table_curated = "curated.orders";
  landing_s3_bucket = "landing";
  landing_s3_prefix = "accepted";
  landing_s3_endpoint_url = none;
  landing_s3_region = none;
  landing_s3_verify_ssl = true;
  merge_load_batch_size = pos 1000;
  source_batch_size = pos 500;
  upsert_batch_size = pos 1000;
}

pub replay_run : replay_of sample_host sample_conf ≡ ok sample_replay
unfolding replay_of get concat join is_one_of sorted str int_of is_space strip_left strip_right
    strip lower parse_bool candidate resolve_required trimmed_or_none resolve_optional
    require_fields read_ints parse_positive_ints parse_contract_version parse_landing_config
    parse_replay_input parse_watermark_mode subscript_text parse_flag resolve_audit_dsn
    require_admin_dsn refuse_delta_object_key require_parent_run_id parse_output_plugin
    parse_replica_identity_mode parse_replication_dsn parse_idle_timeout int_of_text subscript
    show_int
replay_run = refl

replay_config_iff_example :
    (replay_of sample_host sample_conf ≡ ok sample_replay)
    ↔ IsReplay sample_host sample_conf sample_replay
replay_config_iff_example = replay_config_iff sample_host sample_conf sample_replay

abbrev pub sample_incremental_audit : IncrementalAuditRunConfig
sample_incremental_audit = record {
  contracts_service_url = "http://contracts";
  audit_dsn = "postgresql://audit";
  namespace = "sales";
  name = "orders";
  contract_version = some "7";
  source_dsn = "postgresql://source";
  source_table = "orders";
  source_admin_dsn = none;
  source_audit_table = "orders_audit";
  target_dsn = "postgresql://target";
  target_table_curated = "curated.orders";
  landing_s3_bucket = "landing";
  landing_s3_prefix = "accepted";
  landing_s3_endpoint_url = none;
  landing_s3_region = none;
  landing_s3_verify_ssl = true;
  extract_batch_size = pos 1000;
  apply_load_batch_size = pos 1000;
  upsert_batch_size = pos 1000;
  auto_setup_audit = false;
  replace_existing_trigger = false;
  watermark_mode = "auto";
}

pub incremental_audit_run :
    incremental_audit_of sample_host sample_conf ≡ ok sample_incremental_audit
unfolding incremental_audit_of get concat join is_one_of sorted str int_of is_space strip_left
    strip_right strip lower parse_bool candidate resolve_required trimmed_or_none resolve_optional
    require_fields read_ints parse_positive_ints parse_contract_version parse_landing_config
    parse_replay_input parse_watermark_mode subscript_text parse_flag resolve_audit_dsn
    require_admin_dsn refuse_delta_object_key require_parent_run_id parse_output_plugin
    parse_replica_identity_mode parse_replication_dsn parse_idle_timeout int_of_text subscript
    show_int
incremental_audit_run = refl

incremental_audit_config_iff_example :
    (incremental_audit_of sample_host sample_conf ≡ ok sample_incremental_audit)
    ↔ IsIncrementalAudit sample_host sample_conf sample_incremental_audit
incremental_audit_config_iff_example =
    incremental_audit_config_iff sample_host sample_conf sample_incremental_audit

abbrev pub sample_incremental_audit_replay : IncrementalAuditReplayRunConfig
sample_incremental_audit_replay = record {
  contracts_service_url = "http://contracts";
  audit_dsn = "postgresql://audit";
  namespace = "sales";
  name = "orders";
  contract_version = some "7";
  parent_run_id = "r1";
  replay_reason = none;
  target_dsn = "postgresql://target";
  target_table_curated = "curated.orders";
  landing_s3_bucket = "landing";
  landing_s3_prefix = "accepted";
  landing_s3_endpoint_url = none;
  landing_s3_region = none;
  landing_s3_verify_ssl = true;
  apply_load_batch_size = pos 1000;
  upsert_batch_size = pos 1000;
}

pub incremental_audit_replay_run :
    incremental_audit_replay_of sample_host sample_conf ≡ ok sample_incremental_audit_replay
unfolding incremental_audit_replay_of get concat join is_one_of sorted str int_of is_space
    strip_left strip_right strip lower parse_bool candidate resolve_required trimmed_or_none
    resolve_optional require_fields read_ints parse_positive_ints parse_contract_version
    parse_landing_config parse_replay_input parse_watermark_mode subscript_text parse_flag
    resolve_audit_dsn require_admin_dsn refuse_delta_object_key require_parent_run_id
    parse_output_plugin parse_replica_identity_mode parse_replication_dsn parse_idle_timeout
    int_of_text subscript show_int
incremental_audit_replay_run = refl

incremental_audit_replay_config_iff_example :
    (incremental_audit_replay_of sample_host sample_conf ≡ ok sample_incremental_audit_replay)
    ↔ IsIncrementalAuditReplay sample_host sample_conf sample_incremental_audit_replay
incremental_audit_replay_config_iff_example =
    incremental_audit_replay_config_iff sample_host sample_conf sample_incremental_audit_replay

abbrev pub sample_logical_cdc : LogicalCdcRunConfig
sample_logical_cdc = record {
  contracts_service_url = "http://contracts";
  audit_dsn = "postgresql://audit";
  namespace = "sales";
  name = "orders";
  contract_version = some "7";
  source_dsn = "postgresql://source";
  source_replication_dsn = "postgresql://replication";
  source_admin_dsn = none;
  source_table = "orders";
  source_publication_name = "orders_pub";
  source_slot_name = "orders_slot";
  output_plugin = "pgoutput";
  target_dsn = "postgresql://target";
  target_table_curated = "curated.orders";
  landing_s3_bucket = "landing";
  landing_s3_prefix = "accepted";
  landing_s3_endpoint_url = none;
  landing_s3_region = none;
  landing_s3_verify_ssl = true;
  auto_setup_logical_cdc = false;
  auto_configure_wal_settings = false;
  replace_existing_publication = false;
  create_slot_if_missing = true;
  replica_identity_mode = "default";
  desired_max_replication_slots = pos 10;
  desired_max_wal_senders = pos 10;
  max_extract_seconds = pos 30;
  idle_timeout_seconds = none;
  apply_load_batch_size = pos 1000;
  upsert_batch_size = pos 1000;
}

pub logical_cdc_run : logical_cdc_of sample_host sample_conf ≡ ok sample_logical_cdc
unfolding logical_cdc_of get concat join is_one_of sorted str int_of is_space strip_left strip_right
    strip lower parse_bool candidate resolve_required trimmed_or_none resolve_optional
    require_fields read_ints parse_positive_ints parse_contract_version parse_landing_config
    parse_replay_input parse_watermark_mode subscript_text parse_flag resolve_audit_dsn
    require_admin_dsn refuse_delta_object_key require_parent_run_id parse_output_plugin
    parse_replica_identity_mode parse_replication_dsn parse_idle_timeout int_of_text subscript
    show_int
logical_cdc_run = refl

logical_cdc_config_iff_example :
    (logical_cdc_of sample_host sample_conf ≡ ok sample_logical_cdc)
    ↔ IsLogicalCdc sample_host sample_conf sample_logical_cdc
logical_cdc_config_iff_example = logical_cdc_config_iff sample_host sample_conf sample_logical_cdc

abbrev pub sample_logical_cdc_replay : LogicalCdcReplayRunConfig
sample_logical_cdc_replay = record {
  contracts_service_url = "http://contracts";
  audit_dsn = "postgresql://audit";
  namespace = "sales";
  name = "orders";
  contract_version = some "7";
  parent_run_id = "r1";
  replay_reason = none;
  target_dsn = "postgresql://target";
  target_table_curated = "curated.orders";
  landing_s3_bucket = "landing";
  landing_s3_prefix = "accepted";
  landing_s3_endpoint_url = none;
  landing_s3_region = none;
  landing_s3_verify_ssl = true;
  apply_load_batch_size = pos 1000;
  upsert_batch_size = pos 1000;
}

pub logical_cdc_replay_run :
    logical_cdc_replay_of sample_host sample_conf ≡ ok sample_logical_cdc_replay
unfolding logical_cdc_replay_of get concat join is_one_of sorted str int_of is_space strip_left
    strip_right strip lower parse_bool candidate resolve_required trimmed_or_none resolve_optional
    require_fields read_ints parse_positive_ints parse_contract_version parse_landing_config
    parse_replay_input parse_watermark_mode subscript_text parse_flag resolve_audit_dsn
    require_admin_dsn refuse_delta_object_key require_parent_run_id parse_output_plugin
    parse_replica_identity_mode parse_replication_dsn parse_idle_timeout int_of_text subscript
    show_int
logical_cdc_replay_run = refl

logical_cdc_replay_config_iff_example :
    (logical_cdc_replay_of sample_host sample_conf ≡ ok sample_logical_cdc_replay)
    ↔ IsLogicalCdcReplay sample_host sample_conf sample_logical_cdc_replay
logical_cdc_replay_config_iff_example =
    logical_cdc_replay_config_iff sample_host sample_conf sample_logical_cdc_replay

-- A size that is not positive is refused, and so is a run id beside an object key.
zero_size :
    ingestion_of sample_host (("source_batch_size", int (pos 0)) ∷ sample_conf)
    ≡ raise value_error "source_batch_size must be greater than zero"
unfolding ingestion_of get concat join is_one_of sorted str int_of is_space strip_left strip_right
    strip lower parse_bool candidate resolve_required trimmed_or_none resolve_optional
    require_fields read_ints parse_positive_ints parse_contract_version parse_landing_config
    parse_replay_input parse_watermark_mode subscript_text parse_flag resolve_audit_dsn
    require_admin_dsn refuse_delta_object_key require_parent_run_id parse_output_plugin
    parse_replica_identity_mode parse_replication_dsn parse_idle_timeout int_of_text subscript
    show_int
zero_size = refl

both_inputs :
    replay_of sample_host (("accepted_object_key", text "k") ∷ sample_conf)
    ≡ raise value_error "Provide exactly one of accepted_object_key or parent_run_id"
unfolding replay_of get concat join is_one_of sorted str int_of is_space strip_left strip_right
    strip lower parse_bool candidate resolve_required trimmed_or_none resolve_optional
    require_fields read_ints parse_positive_ints parse_contract_version parse_landing_config
    parse_replay_input parse_watermark_mode subscript_text parse_flag resolve_audit_dsn
    require_admin_dsn refuse_delta_object_key require_parent_run_id parse_output_plugin
    parse_replica_identity_mode parse_replication_dsn parse_idle_timeout int_of_text subscript
    show_int
both_inputs = refl

parse_positive_ints_iff_example :
    (parse_positive_ints sample_host sample_conf (("source_batch_size", 1000) ∷ [])
      ≡ ok (("source_batch_size", pos 500) ∷ []))
    ↔ IsParsed sample_host sample_conf
        (("source_batch_size", 1000) ∷ [])
        (("source_batch_size", pos 500) ∷ [])
parse_positive_ints_iff_example =
    parse_positive_ints_iff sample_host sample_conf (("source_batch_size", 1000) ∷ [])
      (("source_batch_size", pos 500) ∷ [])

parse_replay_input_iff_example :
    (parse_replay_input sample_host sample_conf "accepted_object_key" ≡ ok (none, some "r1"))
    ↔ IsReplayInput sample_host sample_conf "accepted_object_key" (none, some "r1")
parse_replay_input_iff_example =
    parse_replay_input_iff sample_host sample_conf "accepted_object_key" (none, some "r1")

-- A replication DSN of white space is accepted and read as an empty one.
blank_replication_dsn :
    logical_cdc_of sample_host (("source_replication_dsn", text " ") ∷ sample_conf)
    ≡ ok (record sample_logical_cdc { source_replication_dsn = "" })
unfolding logical_cdc_of get concat join is_one_of sorted str int_of is_space strip_left strip_right
    strip lower parse_bool candidate resolve_required trimmed_or_none resolve_optional
    require_fields read_ints parse_positive_ints parse_contract_version parse_landing_config
    parse_replay_input parse_watermark_mode subscript_text parse_flag resolve_audit_dsn
    require_admin_dsn refuse_delta_object_key require_parent_run_id parse_output_plugin
    parse_replica_identity_mode parse_replication_dsn parse_idle_timeout int_of_text subscript
    show_int
blank_replication_dsn = refl
