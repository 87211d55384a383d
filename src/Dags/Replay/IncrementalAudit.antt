-- ===== src/Dags/Replay/IncrementalAudit.antt =====
-- The tasks of dags/replay_contract_incremental_audit_from_minio.py.
pub mod Run
use ingestion_airflow.Common.{
  String, Bool, true, false, Option, none, some, List, [], ◌∷◌, str_eq, if◌then◌else◌,
}
use ingestion_airflow.Py.Exc.{Result, ok, raised, ◌>>=◌}
use ingestion_airflow.Py.Text.{concat}
use ingestion_airflow.Py.Value.{bool, text, list, str}
use ingestion_airflow.Py.Dict.{Dict, get, update}
use ingestion_airflow.Config.Steps.{subscript_text}
use ingestion_airflow.Config.IncrementalAuditReplay.{
  IncrementalAuditReplayRunConfig, from_dagrun_conf, pipeline_id,
}
use ingestion_airflow.Runtime.ObjectStore.{ObjectStoreConfig}
use ingestion_airflow.Runtime.Artifacts.{build_incremental_audit_artifacts}
use ingestion_airflow.Db.Tables.{Action}
use ingestion_airflow.Dags.{Dag, TaskEnv, and_then, lift, load_run_config, store_of, named_dsn}
use ingestion_airflow.Dags.Core.{Registry, held_message}
use ingestion_airflow.Dags.Stage.{execute_stage as run_stage}
use ingestion_airflow.Dags.Start.{StartTask}
use ingestion_airflow.Dags.Finalize.{FinalizeReplayTask, texts}
use ingestion_airflow.Dags.IncrementalAudit.{Deltas}
use ingestion_airflow.Dags.Replay.{start_replay, fetch_replayed}
use ingestion_airflow.Dags.Replay.Delta.{ReplayProblem, DeltaReplay}

abbrev pub incremental_audit_replay : Dag
incremental_audit_replay = record {
  Config = IncrementalAuditReplayRunConfig;
  from_dagrun_conf = from_dagrun_conf;
  pipeline_id = pipeline_id;
  landing_of = λ c. (
    c.landing_s3_bucket, c.landing_s3_prefix, c.landing_s3_endpoint_url, c.landing_s3_region,
    c.landing_s3_verify_ssl,
  );
  strategy = "incremental_audit";
  run_mode = "replay";
  explain = λ host attributes. [];
  held_message = held_message;
}

abbrev pub execute_stage : TaskEnv → (run_id stage_name : String) → Action Dict → Action Dict
execute_stage e run_id stage_name action db =
    run_stage incremental_audit_replay e run_id stage_name action db

abbrev shown_flag : Bool → String
shown_flag true = "True"
shown_flag false = "False"

-- The manifest is missing.
unfoldable pub no_manifest :
    (parent_run_id : String) → Bool → (manifest_key delta_key : String) → ReplayProblem
no_manifest parent_run_id found manifest_key delta_key =
    if str_eq parent_run_id ""
    then record {
      problem =
          "Incremental replay could not derive contract_version because manifest was not found.";
      details =
          concat ("Expected manifest key: " ∷ manifest_key ∷ [])
          ∷ "Expected: either manifest exists or contract_version is provided explicitly."
          ∷ "Fix: use a parent_run_id from a successful ingest_contract_incremental_audit run."
          ∷ [];
    }
    else record {
      problem = "Incremental replay manifest was not found in object store.";
      details =
          concat ("parent_run_id: " ∷ parent_run_id ∷ [])
          ∷ "Expected: parent_run_id must be a successful ingest_contract_incremental_audit run_id from ingestion_meta.run_audit, not an Airflow DagRun id and not a hash-diff run."
          ∷ concat ("Successful extract stage metadata found in audit DB: " ∷ shown_flag found ∷ [])
          ∷ concat ("Expected manifest key: " ∷ manifest_key ∷ [])
          ∷ concat ("Expected delta key: " ∷ delta_key ∷ [])
          ∷ "Fix: use the ingestion audit run_id from ingestion_meta.run_audit or start_run XCom."
          ∷ [];
    }

-- What `resolve_replay_input` of this DAG reads and says.
abbrev pub resolving : DeltaReplay incremental_audit_replay
resolving = record {
  namespace = λ config. config.namespace;
  name = λ config. config.name;
  contract_version = λ config. config.contract_version;
  parent_run_id = λ config. config.parent_run_id;
  replay_reason = λ config. config.replay_reason;
  extract_stage = "extract_validate_land_delta";
  artifacts = build_incremental_audit_artifacts;
  title = "Invalid incremental replay input.";
  error_name = "invalid_incremental_replay_input";
  announced =
      "Invalid incremental replay input. See INVALID_INCREMENTAL_REPLAY_INPUT in task log or XCom key replay_input_error.";
  no_delta_key = λ parent_run_id. record {
    problem = "Parent incremental run has extract metadata without delta_object_key.";
    details =
        concat ("parent_run_id: " ∷ parent_run_id ∷ [])
        ∷ "Expected: stage_audit.metrics_json.delta_object_key must point to accepted_delta."
        ∷ "Fix: use a successful ingest_contract_incremental_audit run_id as parent_run_id."
        ∷ [];
  };
  unresolved = record {
    problem = "Replay delta key could not be resolved.";
    details =
        "Expected: parent_run_id references a successful ingest_contract_incremental_audit run."
        ∷ "Fix: use the ingestion audit run_id from ingestion_meta.run_audit or start_run XCom."
        ∷ [];
  };
  no_manifest = no_manifest;
  no_version = record {
    problem = "Replay requires contract_version or a resolvable manifest with contract_version.";
    details =
        "Expected: contract_version is present in dag_run.conf or manifest.json."
        ∷ "Fix: provide contract_version explicitly or use a parent_run_id whose manifest exists."
        ∷ [];
  };
  no_delta = λ normalized_delta_key. record {
    problem = "Incremental replay delta artifact was not found in object store.";
    details =
        concat ("Expected delta key: " ∷ normalized_delta_key ∷ [])
        ∷ "Expected: parent_run_id references a successful ingest_contract_incremental_audit run with an existing accepted_delta object."
        ∷ "Fix: check parent_run_id, namespace, name and landing_s3_prefix."
        ∷ [];
  };
}

abbrev pub start_task : TaskEnv → Dict → StartTask incremental_audit_replay
start_task e resolved =
    start_replay incremental_audit_replay (λ config. config.target_table_curated) e.host
      "delta_object_key" resolved

module _ (e : TaskEnv) (registry : Registry) (core : Deltas registry.Contract) where
  unfoldable pub fetch_contract : (resolved : Dict) → Result Dict
  fetch_contract resolved = do
    config ← load_run_config incremental_audit_replay e
    fetch_replayed e registry config.contracts_service_url config.namespace config.name resolved

  apply_changes :
      IncrementalAuditReplayRunConfig
      → registry.Contract
      → ObjectStoreConfig
      → (run_context : Dict) → Result Dict
  apply_changes config contract store run_context = do
    delta_object_key ← subscript_text e.host run_context "delta_object_key"
    core.apply_delta_to_curated contract (record {
      target_dsn = named_dsn incremental_audit_replay e config.target_dsn "apply_delta" "lake";
      target_table_curated = config.target_table_curated;
      object_store_config = store;
      delta_object_key = delta_object_key;
      load_batch_size = config.apply_load_batch_size;
      upsert_batch_size = config.upsert_batch_size;
    })

  unfoldable pub apply_delta_replay_task : (contract_payload run_context : Dict) → Action Dict
  unfolding apply_changes
  apply_delta_replay_task contract_payload run_context db =
      and_then (lift (load_run_config incremental_audit_replay e) db) λ config db.
        and_then (lift (registry.from_registry_payload contract_payload) db) λ contract db.
          and_then (lift (store_of incremental_audit_replay e config) db) λ store db.
            and_then (lift (subscript_text e.host run_context "run_id") db) λ run_id db.
              execute_stage e run_id "apply_delta"
                (lift (apply_changes config contract store run_context)) db

-- What `finalize_replay` records.
abbrev pub finalize_task : FinalizeReplayTask
finalize_task = record {
  task_id = "apply_delta_replay";
  stages_prefix = "Replay pipeline failed at stages: ";
  tasks_prefix = "Replay pipeline failed at tasks: ";
  failed_payload = λ failed_tasks run_context.
      ("failed_tasks", list (texts failed_tasks))
      ∷ ("delta_object_key", get run_context "delta_object_key")
      ∷ ("validation_manifest_key", get run_context "validation_manifest_key")
      ∷ ("parent_run_id", get run_context "parent_run_id")
      ∷ [];
  payload = λ applied run_context. update applied (
      ("delta_object_key", get run_context "delta_object_key")
      ∷ ("validation_manifest_key", get run_context "validation_manifest_key")
      ∷ ("parent_run_id", get run_context "parent_run_id")
      ∷ ("replayed_contract_version", get run_context "replayed_contract_version")
      ∷ []);
}
