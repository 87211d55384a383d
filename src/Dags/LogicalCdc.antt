-- ===== src/Dags/LogicalCdc.antt =====
-- The tasks of dags/ingest_contract_logical_cdc.py.
pub mod Run
pub mod Acknowledged
use ingestion_airflow.Common.{
  ℕ, String, Bool, true, false, Option, none, some, List, [], ◌∷◌, if◌then◌else◌,
}
use ingestion_airflow.Py.Exc.{Result, ok, raised, ◌>>=◌}
use ingestion_airflow.Py.Int.{ℤ, pos}
use ingestion_airflow.Py.Text.{concat}
use ingestion_airflow.Py.Text.Strip.{strip}
use ingestion_airflow.Py.Value.{Host, Value, null, bool, int, text, list, dict, truthy, str, int_of}
use ingestion_airflow.Py.Dict.{Dict, lookup, get, insert, subscript, update, to_fields}
use ingestion_airflow.Config.Parse.{or_none, value_or}
use ingestion_airflow.Config.Steps.{subscript_text}
use ingestion_airflow.Config.LogicalCdc.{LogicalCdcRunConfig, from_dagrun_conf, pipeline_id}
use ingestion_airflow.Runtime.ObjectStore.{ObjectStoreConfig}
use ingestion_airflow.Runtime.Artifacts.{build_logical_cdc_artifacts}
use ingestion_airflow.ValidationErrorAudit.{extract_validation_error_context}
use ingestion_airflow.Db.Tables.{Action}
use ingestion_airflow.Db.Checkpoints.{persist_pipeline_checkpoint}
use ingestion_airflow.Dags.{Dag, TaskEnv, and_then, lift, load_run_config, store_of, named_dsn}
use ingestion_airflow.Dags.Core.{
  Registry, fetch_with, artifacts_value, entries_of, error_key, manifest_key_of,
}
use ingestion_airflow.Dags.IncrementalAudit.{DeltaApplication, text_or_none_text}
use ingestion_airflow.Dags.Stage.{execute_stage as run_stage}
use ingestion_airflow.Dags.Start.{StartTask}
use ingestion_airflow.Dags.Finalize.{FinalizeTask, count_of, or_else, texts}

abbrev pub logical_cdc : Dag
logical_cdc = record {
  Config = LogicalCdcRunConfig;
  from_dagrun_conf = from_dagrun_conf;
  pipeline_id = pipeline_id;
  landing_of = λ c. (
    c.landing_s3_bucket, c.landing_s3_prefix, c.landing_s3_endpoint_url, c.landing_s3_region,
    c.landing_s3_verify_ssl,
  );
  strategy = "logical_cdc";
  run_mode = "ingest";
  explain = extract_validation_error_context;
  held_message = λ p. concat ("Pipeline lock is already held for " ∷ p ∷ []);
}

abbrev pub execute_stage : TaskEnv → (run_id stage_name : String) → Action Dict → Action Dict
execute_stage e run_id stage_name action db = run_stage logical_cdc e run_id stage_name action db

abbrev pub pipeline_task_ids : List String
pipeline_task_ids =
    "fetch_contract" ∷ "read_checkpoint" ∷ "start_run" ∷ "ensure_source_logical_cdc_capture"
    ∷ "extract_validate_land_wal_delta" ∷ "apply_delta" ∷ "persist_checkpoint_task"
    ∷ "ack_replication_slot" ∷ []

-- The arguments of `ensure_source_logical_cdc_capture`, beside the contract.
pub record CdcCapture : Type 0 where
  pub source_admin_dsn : String
  pub source_table : String
  pub source_publication_name : String
  pub source_slot_name : String
  pub output_plugin : String
  pub replace_existing_publication : Bool
  pub create_slot_if_missing : Bool
  pub replica_identity_mode : String
  pub auto_configure_wal_settings : Bool
  pub desired_max_replication_slots : ℤ
  pub desired_max_wal_senders : ℤ

-- The arguments of `extract_validate_land_wal_delta`, beside the contract.
pub record WalExtraction : Type 0 where
  pub source_dsn : String
  pub source_replication_dsn : String
  pub source_table : String
  pub source_slot_name : String
  pub source_publication_name : String
  pub object_store_config : ObjectStoreConfig
  pub delta_object_key : Value
  pub error_object_key : Value
  pub manifest_key : Value
  pub start_lsn : Value
  pub max_extract_seconds : ℤ
  pub idle_timeout_seconds : Option ℤ
  pub output_plugin : String

-- The arguments of `ack_logical_replication_slot`.
pub record SlotAck : Type 0 where
  pub source_replication_dsn : String
  pub source_slot_name : String
  pub source_publication_name : String
  pub flush_lsn : String

-- The logical-CDC strategy of ingestion_core, its results with their `to_dict()`.
pub record WalDeltas (Contract : Type 0) : Type 0 where
  pub last_applied_lsn : Dict → Result Value
  pub ensure_source_logical_cdc_capture : Contract → CdcCapture → Result Dict
  pub extract_validate_land_wal_delta : Contract → WalExtraction → Result Dict
  pub apply_wal_delta_to_curated : Contract → DeltaApplication → Result Dict
  pub resolve_checkpoint_lsn :
      (start_lsn : Option String) (delta_result apply_result : Dict) → Result Value
  pub ack_logical_replication_slot : SlotAck → Result Dict

module _ (e : TaskEnv) (registry : Registry) (core : WalDeltas registry.Contract) where
  unfoldable pub build_run_context : LogicalCdcRunConfig → String → Dict → Result Dict
  build_run_context config run_id checkpoint = do
    start_lsn ← core.last_applied_lsn checkpoint
    ok (
        ("run_id", text run_id)
        ∷ ("pipeline_id", text (pipeline_id config))
        ∷ ("target_table_curated", text config.target_table_curated)
        ∷ ("previous_checkpoint_run_id", get checkpoint "run_id")
        ∷ ("previous_checkpoint_updated_at", get checkpoint "updated_at")
        ∷ ("start_lsn", start_lsn)
        ∷ (
          "artifacts",
          artifacts_value "delta_object_key"
              (build_logical_cdc_artifacts config.namespace config.name run_id),
        )
        ∷ [])

  abbrev pub start_task : Dict → StartTask logical_cdc
  start_task checkpoint = record {
    build_context = λ config run_id. build_run_context config run_id checkpoint;
    failure = ("failed_stage", text "start_run") ∷ [];
    with_store = false;
  }

  unfoldable pub fetch_contract : Result Dict
  fetch_contract = do
    config ← load_run_config logical_cdc e
    fetch_with e registry config.contracts_service_url config.namespace config.name
        config.contract_version

  abbrev skipped : LogicalCdcRunConfig → Dict
  skipped config =
      ("status", text "skipped")
      ∷ ("auto_setup_logical_cdc", bool false)
      ∷ ("output_plugin", text config.output_plugin)
      ∷ []

  ensure : LogicalCdcRunConfig → registry.Contract → Result Dict
  ensure config contract = do
    payload ← core.ensure_source_logical_cdc_capture contract (record {
      source_admin_dsn =
          named_dsn logical_cdc e (text_or_none_text config.source_admin_dsn)
            "ensure_source_logical_cdc_capture" "source-admin";
      source_table = config.source_table;
      source_publication_name = config.source_publication_name;
      source_slot_name = config.source_slot_name;
      output_plugin = config.output_plugin;
      replace_existing_publication = config.replace_existing_publication;
      create_slot_if_missing = config.create_slot_if_missing;
      replica_identity_mode = config.replica_identity_mode;
      auto_configure_wal_settings = config.auto_configure_wal_settings;
      desired_max_replication_slots = config.desired_max_replication_slots;
      desired_max_wal_senders = config.desired_max_wal_senders;
    })
    ok (insert "status" (text "configured") payload)

  unfoldable pub ensure_source_logical_cdc_capture_task :
      (contract_payload run_context : Dict) → Action Dict
  unfolding ensure
  ensure_source_logical_cdc_capture_task contract_payload run_context db =
      and_then (lift (load_run_config logical_cdc e) db) λ config db.
        and_then (lift (registry.from_registry_payload contract_payload) db) λ contract db.
          and_then (lift (subscript_text e.host run_context "run_id") db) λ run_id db.
            execute_stage e run_id "ensure_source_logical_cdc_capture"
              (lift (
                if config.auto_setup_logical_cdc
                then ensure config contract
                else ok (skipped config)))
              db

  extract_wal_delta :
      LogicalCdcRunConfig
      → registry.Contract
      → ObjectStoreConfig
      → (artifacts run_context : Dict) → Result Dict
  extract_wal_delta config contract store artifacts run_context = do
    delta_object_key ← subscript artifacts "delta_object_key"
    error_object_key ← subscript artifacts "validation_error_key"
    manifest_key ← subscript artifacts "validation_manifest_key"
    core.extract_validate_land_wal_delta contract (record {
      source_dsn =
          named_dsn logical_cdc e config.source_dsn "extract_validate_land_wal_delta" "source";
      source_replication_dsn =
          named_dsn logical_cdc e config.source_replication_dsn "extract_validate_land_wal_delta"
            "replication";
      source_table = config.source_table;
      source_slot_name = config.source_slot_name;
      source_publication_name = config.source_publication_name;
      object_store_config = store;
      delta_object_key = delta_object_key;
      error_object_key = error_object_key;
      manifest_key = manifest_key;
      start_lsn = get run_context "start_lsn";
      max_extract_seconds = config.max_extract_seconds;
      idle_timeout_seconds = config.idle_timeout_seconds;
      output_plugin = config.output_plugin;
    })

  unfoldable pub extract_validate_land_wal_delta_task :
      (contract_payload run_context : Dict) → Action Dict
  unfolding extract_wal_delta
  extract_validate_land_wal_delta_task contract_payload run_context db =
      and_then (lift (load_run_config logical_cdc e) db) λ config db.
        and_then (lift (registry.from_registry_payload contract_payload) db) λ contract db.
          and_then (lift (store_of logical_cdc e config) db) λ store db.
            and_then (lift (subscript run_context "artifacts") db) λ artifacts db.
              and_then (lift (subscript_text e.host run_context "run_id") db) λ run_id db.
                execute_stage e run_id "extract_validate_land_wal_delta"
                  (lift
                    (extract_wal_delta config contract store (entries_of artifacts) run_context))
                  db

  apply_changes :
      LogicalCdcRunConfig
      → registry.Contract
      → ObjectStoreConfig
      → (delta_result : Dict) → Result Dict
  apply_changes config contract store delta_result = do
    delta_object_key ← subscript_text e.host delta_result "delta_object_key"
    core.apply_wal_delta_to_curated contract (record {
      target_dsn = named_dsn logical_cdc e config.target_dsn "apply_delta" "lake";
      target_table_curated = config.target_table_curated;
      object_store_config = store;
      delta_object_key = delta_object_key;
      load_batch_size = config.apply_load_batch_size;
      upsert_batch_size = config.upsert_batch_size;
    })

  unfoldable pub apply_delta_task : (contract_payload run_context delta_result : Dict) → Action Dict
  unfolding apply_changes
  apply_delta_task contract_payload run_context delta_result db =
      and_then (lift (load_run_config logical_cdc e) db) λ config db.
        and_then (lift (registry.from_registry_payload contract_payload) db) λ contract db.
          and_then (lift (store_of logical_cdc e config) db) λ store db.
            and_then (lift (subscript_text e.host run_context "run_id") db) λ run_id db.
              execute_stage e run_id "apply_delta"
                (lift (apply_changes config contract store delta_result)) db

  unfoldable pub checkpoint_payload :
      LogicalCdcRunConfig
      → registry.Contract
      → (run_context ensure_result delta_result apply_result : Dict)
      → (last_applied_lsn run_id : Value) → Dict
  checkpoint_payload config contract run_context ensure_result delta_result apply_result
        last_applied_lsn run_id =
      ("status", text "success")
      ∷ ("strategy", text "logical_cdc")
      ∷ ("pipeline_id", text (pipeline_id config))
      ∷ ("contract_id", registry.contract_id contract)
      ∷ ("contract_version", registry.version contract)
      ∷ ("checksum", registry.checksum contract)
      ∷ ("previous_checkpoint_run_id", get run_context "previous_checkpoint_run_id")
      ∷ ("previous_checkpoint_updated_at", get run_context "previous_checkpoint_updated_at")
      ∷ ("source_table", text config.source_table)
      ∷ ("source_publication_name", text config.source_publication_name)
      ∷ ("source_slot_name", text config.source_slot_name)
      ∷ ("output_plugin", text config.output_plugin)
      ∷ ("target_table_curated", text config.target_table_curated)
      ∷ ("delta_object_key", get delta_result "delta_object_key")
      ∷ ("validation_error_object_key", get delta_result "error_object_key")
      ∷ ("invalid_event_count", get delta_result "invalid_event_count")
      ∷ ("invalid_transaction_count", get delta_result "invalid_transaction_count")
      ∷ ("quarantined_event_count", get delta_result "quarantined_event_count")
      ∷ ("quarantined_transaction_count", get delta_result "quarantined_transaction_count")
      ∷ ("last_applied_lsn", last_applied_lsn)
      ∷ ("last_flushed_lsn", last_applied_lsn)
      ∷ ("extract_validate_land_wal_delta", dict (to_fields delta_result))
      ∷ ("ensure_source_logical_cdc_capture", dict (to_fields ensure_result))
      ∷ ("apply_delta", dict (to_fields apply_result))
      ∷ ("last_completed_run_id", run_id)
      ∷ []

  -- `str(run_context.get("start_lsn") or "").strip() or None`
  abbrev pub start_lsn_of : Dict → Option String
  start_lsn_of run_context = or_none (
      strip (
        if truthy (get run_context "start_lsn")
        then str e.host (get run_context "start_lsn")
        else ""))

  unfoldable pub persist_checkpoint_task :
      (contract_payload run_context ensure_result delta_result apply_result : Dict) → Action Dict
  persist_checkpoint_task contract_payload run_context ensure_result delta_result apply_result db =
      and_then (lift (load_run_config logical_cdc e) db) λ config db.
        and_then (lift (registry.from_registry_payload contract_payload) db) λ contract db.
          and_then (lift (subscript_text e.host run_context "run_id") db) λ run_id db.
            execute_stage e run_id "persist_checkpoint"
              (λ db.
                and_then
                  (lift
                    (core.resolve_checkpoint_lsn (start_lsn_of run_context) delta_result
                      apply_result)
                    db)
                  λ last_applied_lsn db.
                    and_then (lift (subscript run_context "run_id") db) λ run_id_value db.
                      let payload =
                        checkpoint_payload config contract run_context ensure_result delta_result
                          apply_result last_applied_lsn run_id_value in
                      and_then
                        (persist_pipeline_checkpoint e.formats e.finished (pipeline_id config)
                          run_id payload db)
                        λ _ db. (ok payload, db))
              db

  abbrev pub nothing_to_flush : Dict
  nothing_to_flush = ("status", text "skipped") ∷ ("reason", text "no_lsn_to_flush") ∷ []

  unfoldable pub ack : LogicalCdcRunConfig → (flush_lsn : Value) → Result Dict
  ack config flush_lsn = core.ack_logical_replication_slot (record {
    source_replication_dsn =
        named_dsn logical_cdc e config.source_replication_dsn "ack_replication_slot" "replication";
    source_slot_name = config.source_slot_name;
    source_publication_name = config.source_publication_name;
    flush_lsn = str e.host flush_lsn;
  })

  unfoldable pub ack_replication_slot_task : (run_context checkpoint_result : Dict) → Action Dict
  ack_replication_slot_task run_context checkpoint_result db =
      and_then (lift (load_run_config logical_cdc e) db) λ config db.
        let flush_lsn = get checkpoint_result "last_flushed_lsn" in
        if truthy flush_lsn
        then and_then (lift (subscript_text e.host run_context "run_id") db) (λ run_id db.
          execute_stage e run_id "ack_replication_slot" (lift (ack config flush_lsn)) db)
        else (ok nothing_to_flush, db)

-- `int(delta_result.get("source_event_count", 0) or apply_result.get("read_count", 0) or 0)`
abbrev pub events_or_reads : Host → Dict → Dict → Result ℤ
events_or_reads host delta applied = int_of host (
    or_else
      (or_else (value_or (lookup "source_event_count" delta) (int (pos 0)))
        (value_or (lookup "read_count" applied) (int (pos 0))))
      (int (pos 0)))

-- What `finalize_run` records.
abbrev pub finalize_task : FinalizeTask
finalize_task = record {
  task_ids = pipeline_task_ids;
  extract_stage = "extract_validate_land_wal_delta";
  apply_task = "apply_delta";
  failed_read_count = λ host extract. count_of host extract "source_event_count";
  failed_payload = λ failed_tasks extract checkpoint.
      ("failed_tasks", list (texts failed_tasks))
      ∷ ("delta_object_key", get extract "delta_object_key")
      ∷ ("validation_error_object_key", error_key extract)
      ∷ ("validation_manifest_key", manifest_key_of extract)
      ∷ [];
  read_count = events_or_reads;
  payload = λ extract applied checkpoint. update applied (
      ("source_event_count", get extract "source_event_count")
      ∷ ("invalid_event_count", get extract "invalid_event_count")
      ∷ ("invalid_transaction_count", get extract "invalid_transaction_count")
      ∷ ("quarantined_event_count", get extract "quarantined_event_count")
      ∷ ("quarantined_transaction_count", get extract "quarantined_transaction_count")
      ∷ ("validation_error_object_key", error_key extract)
      ∷ ("delta_object_key", get extract "delta_object_key")
      ∷ ("validation_manifest_key", manifest_key_of extract)
      ∷ ("window_start_lsn", get extract "window_start_lsn")
      ∷ ("window_end_lsn", get extract "window_end_lsn")
      ∷ ("last_decoded_lsn", get extract "last_decoded_lsn")
      ∷ ("last_stream_wal_end_lsn", get extract "last_stream_wal_end_lsn")
      ∷ ("reached_window_end", get extract "reached_window_end")
      ∷ []);
}
