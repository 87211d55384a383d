-- ===== src/Dags/Hashdiff.antt =====
-- The tasks of dags/ingest_contract_hashdiff.py.
pub mod Run
use ingestion_airflow.Common.{ℕ, String, Bool, true, false, Option, none, some, List, [], ◌∷◌}
use ingestion_airflow.Py.Exc.{Result, ok, raised, ◌>>=◌}
use ingestion_airflow.Py.Int.{ℤ}
use ingestion_airflow.Py.Text.{concat}
use ingestion_airflow.Py.Value.{Host, Value, null, bool, text, list, dict, truthy, str}
use ingestion_airflow.Py.Dict.{Dict, get, subscript, update, to_fields}
use ingestion_airflow.Config.Steps.{subscript_text}
use ingestion_airflow.Config.Ingestion.{IngestionRunConfig, from_dagrun_conf, pipeline_id}
use ingestion_airflow.Runtime.ObjectStore.{ObjectStoreConfig}
use ingestion_airflow.Runtime.Artifacts.{build_hashdiff_artifacts}
use ingestion_airflow.ValidationErrorAudit.{extract_validation_error_context}
use ingestion_airflow.Db.Tables.{Action}
use ingestion_airflow.Db.Checkpoints.{persist_pipeline_checkpoint}
use ingestion_airflow.Dags.{Dag, TaskEnv, and_then, lift, load_run_config, store_of, named_dsn}
use ingestion_airflow.Dags.Core.{
  Registry, fetch_with, artifacts_value, entries_of, held_message, error_key, manifest_key_of,
  is_present,
}
use ingestion_airflow.Dags.Stage.{execute_stage as run_stage}
use ingestion_airflow.Dags.Start.{StartTask}
use ingestion_airflow.Dags.Finalize.{FinalizeTask, count_of, or_else, texts}

abbrev pub hashdiff : Dag
hashdiff = record {
  Config = IngestionRunConfig;
  from_dagrun_conf = from_dagrun_conf;
  pipeline_id = pipeline_id;
  landing_of = λ c. (
    c.landing_s3_bucket, c.landing_s3_prefix, c.landing_s3_endpoint_url, c.landing_s3_region,
    c.landing_s3_verify_ssl,
  );
  strategy = "hash_diff";
  run_mode = "ingest";
  explain = extract_validation_error_context;
  held_message = held_message;
}

abbrev pub execute_stage : TaskEnv → (run_id stage_name : String) → Action Dict → Action Dict
execute_stage e run_id stage_name action db = run_stage hashdiff e run_id stage_name action db

abbrev pub pipeline_task_ids : List String
pipeline_task_ids =
    "fetch_contract" ∷ "read_checkpoint" ∷ "start_run" ∷ "extract_validate_land" ∷ "merge_curated"
    ∷ "persist_checkpoint_task" ∷ []

-- An empty checkpoint has no entry, so `get` gives None.
unfoldable pub build_run_context : IngestionRunConfig → String → Dict → Dict
build_run_context config run_id checkpoint =
    ("run_id", text run_id)
    ∷ ("pipeline_id", text (pipeline_id config))
    ∷ ("target_table_curated", text config.target_table_curated)
    ∷ ("previous_checkpoint_run_id", get checkpoint "run_id")
    ∷ ("previous_checkpoint_updated_at", get checkpoint "updated_at")
    ∷ (
      "artifacts",
      artifacts_value "accepted_object_key"
          (build_hashdiff_artifacts config.namespace config.name run_id),
    )
    ∷ []

abbrev pub start_task : Dict → StartTask hashdiff
start_task checkpoint = record {
  build_context = λ config run_id. ok (build_run_context config run_id checkpoint);
  failure = ("failed_stage", text "start_run") ∷ [];
  with_store = false;
}

-- The arguments of `extract_validate_land_snapshot`, beside the contract.
pub record SnapshotExtraction : Type 0 where
  pub source_dsn : String
  pub source_table : String
  pub object_store_config : ObjectStoreConfig
  pub accepted_object_key : Value
  pub error_object_key : Value
  pub manifest_key : Value
  pub source_batch_size : ℤ

-- The arguments of `merge_accepted_snapshot_to_curated`, beside the contract.
pub record SnapshotMerge : Type 0 where
  pub target_dsn : String
  pub target_table_curated : String
  pub object_store_config : ObjectStoreConfig
  pub accepted_object_key : String
  pub merge_load_batch_size : ℤ
  pub source_batch_size : ℤ
  pub upsert_batch_size : ℤ

-- The attributes of its result.
pub record MergeResult : Type 0 where
  pub read_count : Value
  pub insert_count : Value
  pub update_count : Value
  pub delete_count : Value
  pub unchanged_count : Value
  pub processed_batches : Value
  pub source_read_seconds : Value
  pub diff_seconds : Value
  pub write_seconds : Value
  pub total_seconds : Value

-- The hash-diff strategy of ingestion_core; the extraction with its `to_dict()`.
pub record Snapshots (Contract : Type 0) : Type 0 where
  pub extract_validate_land_snapshot : Contract → SnapshotExtraction → Result Dict
  pub merge_accepted_snapshot_to_curated : Contract → SnapshotMerge → Result MergeResult

abbrev pub merge_metrics : MergeResult → Dict
merge_metrics r =
    ("read_count", r.read_count)
    ∷ ("insert_count", r.insert_count)
    ∷ ("update_count", r.update_count)
    ∷ ("delete_count", r.delete_count)
    ∷ ("unchanged_count", r.unchanged_count)
    ∷ ("processed_batches", r.processed_batches)
    ∷ ("source_read_seconds", r.source_read_seconds)
    ∷ ("diff_seconds", r.diff_seconds)
    ∷ ("write_seconds", r.write_seconds)
    ∷ ("total_seconds", r.total_seconds)
    ∷ []

module _ (e : TaskEnv) (registry : Registry) (core : Snapshots registry.Contract) where
  unfoldable pub fetch_contract : Result Dict
  fetch_contract = do
    config ← load_run_config hashdiff e
    fetch_with e registry config.contracts_service_url config.namespace config.name
        config.contract_version

  extract_snapshot :
      IngestionRunConfig → registry.Contract → ObjectStoreConfig → (artifacts : Dict) → Result Dict
  extract_snapshot config contract store artifacts = do
    accepted_object_key ← subscript artifacts "accepted_object_key"
    error_object_key ← subscript artifacts "validation_error_key"
    manifest_key ← subscript artifacts "validation_manifest_key"
    core.extract_validate_land_snapshot contract (record {
      source_dsn = named_dsn hashdiff e config.source_dsn "extract_validate_land" "source";
      source_table = config.source_table;
      object_store_config = store;
      accepted_object_key = accepted_object_key;
      error_object_key = error_object_key;
      manifest_key = manifest_key;
      source_batch_size = config.source_batch_size;
    })

  unfoldable pub extract_validate_land : (contract_payload run_context : Dict) → Action Dict
  unfolding extract_snapshot
  extract_validate_land contract_payload run_context db =
      and_then (lift (load_run_config hashdiff e) db) λ config db.
        and_then (lift (registry.from_registry_payload contract_payload) db) λ contract db.
          and_then (lift (store_of hashdiff e config) db) λ store db.
            and_then (lift (subscript run_context "artifacts") db) λ artifacts db.
              and_then (lift (subscript_text e.host run_context "run_id") db) λ run_id db.
                execute_stage e run_id "extract_validate_land"
                  (lift (extract_snapshot config contract store (entries_of artifacts))) db

  merge_snapshot :
      IngestionRunConfig
      → registry.Contract
      → ObjectStoreConfig
      → (accepted_result : Dict) → Result Dict
  merge_snapshot config contract store accepted_result = do
    accepted_object_key ← subscript_text e.host accepted_result "accepted_object_key"
    result ← core.merge_accepted_snapshot_to_curated contract (record {
      target_dsn = named_dsn hashdiff e config.target_dsn "merge_curated" "lake";
      target_table_curated = config.target_table_curated;
      object_store_config = store;
      accepted_object_key = accepted_object_key;
      merge_load_batch_size = config.merge_load_batch_size;
      source_batch_size = config.source_batch_size;
      upsert_batch_size = config.upsert_batch_size;
    })
    ok (merge_metrics result)

  unfoldable pub merge_curated : (contract_payload run_context accepted_result : Dict) → Action Dict
  unfolding merge_snapshot
  merge_curated contract_payload run_context accepted_result db =
      and_then (lift (load_run_config hashdiff e) db) λ config db.
        and_then (lift (registry.from_registry_payload contract_payload) db) λ contract db.
          and_then (lift (store_of hashdiff e config) db) λ store db.
            and_then (lift (subscript_text e.host run_context "run_id") db) λ run_id db.
              execute_stage e run_id "merge_curated"
                (lift (merge_snapshot config contract store accepted_result)) db

  checkpoint_payload :
      IngestionRunConfig
      → registry.Contract
      → (run_context accepted_result merge_result : Dict) → Value
      → Dict
  checkpoint_payload config contract run_context accepted_result merge_result run_id =
      ("status", text "success")
      ∷ ("strategy", text "hash_diff")
      ∷ ("pipeline_id", text (pipeline_id config))
      ∷ ("contract_id", registry.contract_id contract)
      ∷ ("contract_version", registry.version contract)
      ∷ ("checksum", registry.checksum contract)
      ∷ ("previous_checkpoint_run_id", get run_context "previous_checkpoint_run_id")
      ∷ ("previous_checkpoint_updated_at", get run_context "previous_checkpoint_updated_at")
      ∷ ("accepted_object_key", get accepted_result "accepted_object_key")
      ∷ ("validation_error_object_key", get accepted_result "error_object_key")
      ∷ ("source_table", text config.source_table)
      ∷ ("target_table_curated", text config.target_table_curated)
      ∷ ("extract_validate_land", dict (to_fields accepted_result))
      ∷ ("merge", dict (to_fields merge_result))
      ∷ ("last_completed_run_id", run_id)
      ∷ []

  unfoldable pub persist_checkpoint_task :
      (contract_payload run_context accepted_result merge_result : Dict) → Action Dict
  unfolding checkpoint_payload
  persist_checkpoint_task contract_payload run_context accepted_result merge_result db =
      and_then (lift (load_run_config hashdiff e) db) λ config db.
        and_then (lift (registry.from_registry_payload contract_payload) db) λ contract db.
          and_then (lift (subscript_text e.host run_context "run_id") db) λ run_id db.
            execute_stage e run_id "persist_checkpoint"
              (λ db. and_then (lift (subscript run_context "run_id") db) λ run_id_value db.
                let payload =
                  checkpoint_payload config contract run_context accepted_result merge_result
                    run_id_value in
                and_then
                  (persist_pipeline_checkpoint e.formats e.finished (pipeline_id config) run_id
                    payload db)
                  λ _ db. (ok payload, db))
              db

-- What `finalize_run` records.
abbrev pub finalize_task : FinalizeTask
finalize_task = record {
  task_ids = pipeline_task_ids;
  extract_stage = "extract_validate_land";
  apply_task = "merge_curated";
  failed_read_count = λ host extract. count_of host extract "source_row_count";
  failed_payload = λ failed_tasks extract checkpoint.
      ("failed_tasks", list (texts failed_tasks))
      ∷ ("checkpoint_persisted", bool (is_present checkpoint))
      ∷ ("accepted_object_key", get extract "accepted_object_key")
      ∷ ("validation_error_object_key", error_key extract)
      ∷ [];
  read_count = λ host delta applied. count_of host applied "read_count";
  payload = λ extract applied checkpoint. update applied (
      ("checkpoint_persisted", bool (is_present checkpoint))
      ∷ ("accepted_object_key", get extract "accepted_object_key")
      ∷ ("validation_error_object_key", error_key extract)
      ∷ ("validation_manifest_key", manifest_key_of extract)
      ∷ []);
}
