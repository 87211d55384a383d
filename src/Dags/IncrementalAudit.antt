-- ===== src/Dags/IncrementalAudit.antt =====
-- The tasks of dags/ingest_contract_incremental_audit.py.
pub mod Run
use ingestion_airflow.Common.{
  ℕ, String, Bool, true, false, Option, none, some, List, [], ◌∷◌, if◌then◌else◌,
}
use ingestion_airflow.Py.Exc.{Result, ok, raised, ◌>>=◌}
use ingestion_airflow.Py.Int.{ℤ}
use ingestion_airflow.Py.Value.{Host, Value, null, bool, text, list, dict, str}
use ingestion_airflow.Py.Dict.{Dict, get, insert, subscript, update, to_fields}
use ingestion_airflow.Config.Steps.{subscript_text}
use ingestion_airflow.Config.IncrementalAudit.{
  IncrementalAuditRunConfig, from_dagrun_conf, pipeline_id,
}
use ingestion_airflow.Runtime.ObjectStore.{ObjectStoreConfig}
use ingestion_airflow.Runtime.Artifacts.{build_incremental_audit_artifacts}
use ingestion_airflow.ValidationErrorAudit.{extract_validation_error_context}
use ingestion_airflow.Db.Tables.{Action}
use ingestion_airflow.Db.Checkpoints.{persist_pipeline_checkpoint}
use ingestion_airflow.Dags.{Dag, TaskEnv, and_then, lift, load_run_config, store_of, named_dsn}
use ingestion_airflow.Dags.Core.{
  Registry, fetch_with, artifacts_value, entries_of, held_message, error_key, manifest_key_of,
  is_present,
}
use ingestion_airflow.Dags.Stage.{execute_stage as run_stage}
use ingestion_airflow.Dags.Start.{StartTask}
use ingestion_airflow.Dags.Finalize.{FinalizeTask, count_of, or_else, texts}

abbrev pub incremental_audit : Dag
incremental_audit = record {
  Config = IncrementalAuditRunConfig;
  from_dagrun_conf = from_dagrun_conf;
  pipeline_id = pipeline_id;
  landing_of = λ c. (
    c.landing_s3_bucket, c.landing_s3_prefix, c.landing_s3_endpoint_url, c.landing_s3_region,
    c.landing_s3_verify_ssl,
  );
  strategy = "incremental_audit";
  run_mode = "ingest";
  explain = extract_validation_error_context;
  held_message = held_message;
}

abbrev pub execute_stage : TaskEnv → (run_id stage_name : String) → Action Dict → Action Dict
execute_stage e run_id stage_name action db =
    run_stage incremental_audit e run_id stage_name action db

abbrev pub pipeline_task_ids : List String
pipeline_task_ids =
    "fetch_contract" ∷ "read_checkpoint" ∷ "start_run" ∷ "ensure_source_audit_capture"
    ∷ "extract_validate_land_delta" ∷ "apply_delta" ∷ "persist_checkpoint_task" ∷ []

-- The arguments of `ensure_source_audit_capture`, beside the contract.
pub record AuditCapture : Type 0 where
  pub source_admin_dsn : String
  pub source_table : String
  pub source_audit_table : String
  pub watermark_mode : String
  pub replace_existing_trigger : Bool

-- The arguments of `extract_validate_land_delta`, beside the contract and the watermark.
pub record DeltaExtraction : Type 0 where
  pub source_dsn : String
  pub source_audit_table : String
  pub object_store_config : ObjectStoreConfig
  pub delta_object_key : Value
  pub error_object_key : Value
  pub manifest_key : Value
  pub extract_batch_size : ℤ
  pub watermark_mode : String

-- The arguments of `apply_delta_to_curated`, beside the contract.
pub record DeltaApplication : Type 0 where
  pub target_dsn : String
  pub target_table_curated : String
  pub object_store_config : ObjectStoreConfig
  pub delta_object_key : String
  pub load_batch_size : ℤ
  pub upsert_batch_size : ℤ

-- The incremental-audit strategy of ingestion_core, its results with their `to_dict()`.
pub record Deltas (Contract : Type 0) : Type 1 where
  pub Watermark : Type 0
  pub checkpoint_watermark_from_payload : Dict → Result (Option Watermark)
  pub to_dict : Watermark → Dict
  pub ensure_source_audit_capture : Contract → AuditCapture → Result Dict
  pub extract_validate_land_delta : Contract → Option Watermark → DeltaExtraction → Result Dict
  pub apply_delta_to_curated : Contract → DeltaApplication → Result Dict

-- `str(dsn)` of an optional text
abbrev pub text_or_none_text : Option String → String
text_or_none_text none = "None"
text_or_none_text (some s) = s

module _ (e : TaskEnv) (registry : Registry) (core : Deltas registry.Contract) where
  abbrev watermark_value : Option core.Watermark → Value
  watermark_value none = null
  watermark_value (some w) = dict (to_fields (core.to_dict w))

  unfoldable pub build_run_context : IncrementalAuditRunConfig → String → Dict → Result Dict
  build_run_context config run_id checkpoint = do
    start_watermark ← core.checkpoint_watermark_from_payload checkpoint
    ok (
        ("run_id", text run_id)
        ∷ ("pipeline_id", text (pipeline_id config))
        ∷ ("target_table_curated", text config.target_table_curated)
        ∷ ("previous_checkpoint_run_id", get checkpoint "run_id")
        ∷ ("previous_checkpoint_updated_at", get checkpoint "updated_at")
        ∷ ("start_watermark", watermark_value start_watermark)
        ∷ (
          "artifacts",
          artifacts_value "delta_object_key"
              (build_incremental_audit_artifacts config.namespace config.name run_id),
        )
        ∷ [])

  abbrev pub start_task : Dict → StartTask incremental_audit
  start_task checkpoint = record {
    build_context = λ config run_id. build_run_context config run_id checkpoint;
    failure = ("failed_stage", text "start_run") ∷ [];
    with_store = false;
  }

  unfoldable pub fetch_contract : Result Dict
  fetch_contract = do
    config ← load_run_config incremental_audit e
    fetch_with e registry config.contracts_service_url config.namespace config.name
        config.contract_version

  abbrev skipped : IncrementalAuditRunConfig → Dict
  skipped config =
      ("status", text "skipped")
      ∷ ("auto_setup_audit", bool false)
      ∷ ("watermark_mode", text config.watermark_mode)
      ∷ []

  ensure : IncrementalAuditRunConfig → registry.Contract → Result Dict
  ensure config contract = do
    payload ← core.ensure_source_audit_capture contract (record {
      source_admin_dsn =
          named_dsn incremental_audit e (text_or_none_text config.source_admin_dsn)
            "ensure_source_audit_capture" "source-admin";
      source_table = config.source_table;
      source_audit_table = config.source_audit_table;
      watermark_mode = config.watermark_mode;
      replace_existing_trigger = config.replace_existing_trigger;
    })
    ok (insert "auto_setup_audit" (bool true) (insert "status" (text "configured") payload))

  unfoldable pub ensure_source_audit_capture_task :
      (contract_payload run_context : Dict) → Action Dict
  unfolding ensure
  ensure_source_audit_capture_task contract_payload run_context db =
      and_then (lift (load_run_config incremental_audit e) db) λ config db.
        and_then (lift (registry.from_registry_payload contract_payload) db) λ contract db.
          and_then (lift (subscript_text e.host run_context "run_id") db) λ run_id db.
            execute_stage e run_id "ensure_source_audit_capture"
              (lift
                (if config.auto_setup_audit then ensure config contract else ok (skipped config)))
              db

  extract_delta :
      IncrementalAuditRunConfig
      → registry.Contract
      → ObjectStoreConfig
      → (artifacts : Dict) → Option core.Watermark
      → Result Dict
  extract_delta config contract store artifacts start_watermark = do
    delta_object_key ← subscript artifacts "delta_object_key"
    error_object_key ← subscript artifacts "validation_error_key"
    manifest_key ← subscript artifacts "validation_manifest_key"
    core.extract_validate_land_delta contract start_watermark (record {
      source_dsn =
          named_dsn incremental_audit e config.source_dsn "extract_validate_land_delta" "source";
      source_audit_table = config.source_audit_table;
      object_store_config = store;
      delta_object_key = delta_object_key;
      error_object_key = error_object_key;
      manifest_key = manifest_key;
      extract_batch_size = config.extract_batch_size;
      watermark_mode = config.watermark_mode;
    })

  unfoldable pub extract_validate_land_delta_task :
      (contract_payload run_context : Dict) → Action Dict
  unfolding extract_delta
  extract_validate_land_delta_task contract_payload run_context db =
      and_then (lift (load_run_config incremental_audit e) db) λ config db.
        and_then (lift (registry.from_registry_payload contract_payload) db) λ contract db.
          and_then (lift (store_of incremental_audit e config) db) λ store db.
            and_then (lift (subscript run_context "artifacts") db) λ artifacts db.
              and_then
                (lift
                  (core.checkpoint_watermark_from_payload
                    (("last_applied_watermark", get run_context "start_watermark") ∷ []))
                  db)
                λ start_watermark db.
                  and_then (lift (subscript_text e.host run_context "run_id") db) λ run_id db.
                    execute_stage e run_id "extract_validate_land_delta"
                      (lift (
                        extract_delta config contract store (entries_of artifacts) start_watermark))
                      db

  apply_changes :
      IncrementalAuditRunConfig
      → registry.Contract
      → ObjectStoreConfig
      → (delta_result : Dict) → Result Dict
  apply_changes config contract store delta_result = do
    delta_object_key ← subscript_text e.host delta_result "delta_object_key"
    core.apply_delta_to_curated contract (record {
      target_dsn = named_dsn incremental_audit e config.target_dsn "apply_delta" "lake";
      target_table_curated = config.target_table_curated;
      object_store_config = store;
      delta_object_key = delta_object_key;
      load_batch_size = config.apply_load_batch_size;
      upsert_batch_size = config.upsert_batch_size;
    })

  unfoldable pub apply_delta_task : (contract_payload run_context delta_result : Dict) → Action Dict
  unfolding apply_changes
  apply_delta_task contract_payload run_context delta_result db =
      and_then (lift (load_run_config incremental_audit e) db) λ config db.
        and_then (lift (registry.from_registry_payload contract_payload) db) λ contract db.
          and_then (lift (store_of incremental_audit e config) db) λ store db.
            and_then (lift (subscript_text e.host run_context "run_id") db) λ run_id db.
              execute_stage e run_id "apply_delta"
                (lift (apply_changes config contract store delta_result)) db

  checkpoint_payload :
      IncrementalAuditRunConfig
      → registry.Contract
      → (run_context ensure_result delta_result apply_result : Dict) → Value
      → Dict
  checkpoint_payload config contract run_context ensure_result delta_result apply_result run_id =
      ("status", text "success")
      ∷ ("strategy", text "incremental_audit")
      ∷ ("pipeline_id", text (pipeline_id config))
      ∷ ("contract_id", registry.contract_id contract)
      ∷ ("contract_version", registry.version contract)
      ∷ ("checksum", registry.checksum contract)
      ∷ ("previous_checkpoint_run_id", get run_context "previous_checkpoint_run_id")
      ∷ ("previous_checkpoint_updated_at", get run_context "previous_checkpoint_updated_at")
      ∷ ("source_table", text config.source_table)
      ∷ ("source_audit_table", text config.source_audit_table)
      ∷ ("target_table_curated", text config.target_table_curated)
      ∷ ("delta_object_key", get delta_result "delta_object_key")
      ∷ ("validation_error_object_key", get delta_result "error_object_key")
      ∷ ("invalid_event_count", get delta_result "invalid_event_count")
      ∷ ("window_start", get delta_result "window_start")
      ∷ ("window_end", get delta_result "window_end")
      ∷ (
        "last_applied_watermark",
        or_else (get delta_result "window_end") (get run_context "start_watermark"),
      )
      ∷ ("watermark_mode", get delta_result "watermark_mode")
      ∷ ("ensure_source_audit_capture", dict (to_fields ensure_result))
      ∷ ("extract_validate_land_delta", dict (to_fields delta_result))
      ∷ ("apply_delta", dict (to_fields apply_result))
      ∷ ("last_completed_run_id", run_id)
      ∷ []

  unfoldable pub persist_checkpoint_task :
      (contract_payload run_context ensure_result delta_result apply_result : Dict) → Action Dict
  unfolding checkpoint_payload
  persist_checkpoint_task contract_payload run_context ensure_result delta_result apply_result db =
      and_then (lift (load_run_config incremental_audit e) db) λ config db.
        and_then (lift (registry.from_registry_payload contract_payload) db) λ contract db.
          and_then (lift (subscript_text e.host run_context "run_id") db) λ run_id db.
            execute_stage e run_id "persist_checkpoint"
              (λ db. and_then (lift (subscript run_context "run_id") db) λ run_id_value db.
                let payload =
                  checkpoint_payload config contract run_context ensure_result delta_result
                    apply_result run_id_value in
                and_then
                  (persist_pipeline_checkpoint e.formats e.finished (pipeline_id config) run_id
                    payload db)
                  λ _ db. (ok payload, db))
              db

-- What `finalize_run` records.
abbrev pub finalize_task : FinalizeTask
finalize_task = record {
  task_ids = pipeline_task_ids;
  extract_stage = "extract_validate_land_delta";
  apply_task = "apply_delta";
  failed_read_count = λ host extract. count_of host extract "source_event_count";
  failed_payload = λ failed_tasks extract checkpoint.
      ("failed_tasks", list (texts failed_tasks))
      ∷ ("checkpoint_persisted", bool (is_present checkpoint))
      ∷ ("delta_object_key", get extract "delta_object_key")
      ∷ ("validation_error_object_key", error_key extract)
      ∷ ("validation_manifest_key", manifest_key_of extract)
      ∷ [];
  read_count = λ host delta applied. count_of host applied "read_count";
  payload = λ extract applied checkpoint. update applied (
      ("source_event_count", get extract "source_event_count")
      ∷ ("invalid_event_count", get extract "invalid_event_count")
      ∷ ("validation_error_object_key", error_key extract)
      ∷ ("delta_object_key", get extract "delta_object_key")
      ∷ ("validation_manifest_key", manifest_key_of extract)
      ∷ ("window_start", get extract "window_start")
      ∷ ("window_end", get extract "window_end")
      ∷ ("checkpoint_persisted", bool (is_present checkpoint))
      ∷ []);
}
