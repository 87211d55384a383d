-- ===== src/Dags/Replay/Hashdiff.antt =====
-- The tasks of dags/replay_contract_hashdiff_from_minio.py.
pub mod Run
use ingestion_airflow.Common.{
  String, Bool, true, false, Option, none, some, List, [], ◌∷◌, str_eq, if◌then◌else◌,
}
use ingestion_airflow.Py.Exc.{Result, ok, raised, raise, value_error, ◌>>=◌, ◌>>◌}
use ingestion_airflow.Py.Value.{text, list}
use ingestion_airflow.Py.Dict.{Dict, get, update}
use ingestion_airflow.Config.Parse.{is_given}
use ingestion_airflow.Config.Steps.{subscript_text}
use ingestion_airflow.Config.Replay.{ReplayRunConfig, from_dagrun_conf, pipeline_id}
use ingestion_airflow.Runtime.ObjectStore.{ObjectStoreConfig}
use ingestion_airflow.Runtime.Artifacts.{build_hashdiff_artifacts}
use ingestion_airflow.Db.Tables.{Action}
use ingestion_airflow.Dags.{Dag, TaskEnv, and_then, lift, load_run_config, store_of, named_dsn}
use ingestion_airflow.Dags.Core.{Registry, held_message}
use ingestion_airflow.Dags.Stage.{execute_stage as run_stage}
use ingestion_airflow.Dags.Start.{StartTask}
use ingestion_airflow.Dags.Finalize.{FinalizeReplayTask, texts}
use ingestion_airflow.Dags.Hashdiff.{Snapshots, merge_metrics}
use ingestion_airflow.Dags.Replay.{version_of, replay_input, start_replay, fetch_replayed}
use ingestion_airflow.Dags.Replay.Manifest.{derive_validation_manifest_key}

abbrev pub hashdiff_replay : Dag
hashdiff_replay = record {
  Config = ReplayRunConfig;
  from_dagrun_conf = from_dagrun_conf;
  pipeline_id = pipeline_id;
  landing_of = λ c. (
    c.landing_s3_bucket, c.landing_s3_prefix, c.landing_s3_endpoint_url, c.landing_s3_region,
    c.landing_s3_verify_ssl,
  );
  strategy = "hash_diff";
  run_mode = "replay";
  explain = λ host attributes. [];
  held_message = held_message;
}

abbrev pub execute_stage : TaskEnv → (run_id stage_name : String) → Action Dict → Action Dict
execute_stage e run_id stage_name action db =
    run_stage hashdiff_replay e run_id stage_name action db

abbrev of_object_key : Option String → Option String × Option String
of_object_key none = (none, none)
of_object_key (some key) =
    if str_eq key "" then (some key, none) else (some key, derive_validation_manifest_key key)

-- The accepted object and the manifest: those of the parent run, else the object that is given and the
-- manifest beside it.
abbrev pub replayed_keys : ReplayRunConfig → Option String → Option String × Option String
replayed_keys config none = of_object_key config.accepted_object_key
replayed_keys config (some parent_run_id) =
    if str_eq parent_run_id "" then of_object_key config.accepted_object_key else (
      some (build_hashdiff_artifacts config.namespace config.name parent_run_id).object_key,
      some
          (build_hashdiff_artifacts config.namespace config.name
            parent_run_id).validation_manifest_key,
    )

abbrev required_key : Option String → Result String
required_key none = raise value_error "Replay accepted snapshot key could not be resolved"
required_key (some key) =
    if str_eq key ""
    then raise value_error "Replay accepted snapshot key could not be resolved"
    else ok key

abbrev required_version : Option String → Result String
required_version none =
    raise value_error
      "Replay requires contract_version or a resolvable validate manifest with contract_version"
required_version (some version) = ok version

unfoldable pub resolve_replay_input : TaskEnv → Result Dict
resolve_replay_input e = do
  config ← load_run_config hashdiff_replay e
  store ← store_of hashdiff_replay e config
  e.client.connect store
  let keys = replayed_keys config config.parent_run_id
  accepted_object_key ← required_key keys.0
  found ← version_of e store config.contract_version keys.1
  contract_version ← required_version found
  ok (
      replay_input "accepted_object_key" accepted_object_key keys.1 contract_version
        config.parent_run_id config.replay_reason)

abbrev pub start_task : TaskEnv → Dict → StartTask hashdiff_replay
start_task e resolved =
    start_replay hashdiff_replay (λ config. config.target_table_curated) e.host
      "accepted_object_key" resolved

module _ (e : TaskEnv) (registry : Registry) (core : Snapshots registry.Contract) where
  unfoldable pub fetch_contract : (resolved : Dict) → Result Dict
  fetch_contract resolved = do
    config ← load_run_config hashdiff_replay e
    fetch_replayed e registry config.contracts_service_url config.namespace config.name resolved

  merge_snapshot :
      ReplayRunConfig → registry.Contract → ObjectStoreConfig → (run_context : Dict) → Result Dict
  merge_snapshot config contract store run_context = do
    accepted_object_key ← subscript_text e.host run_context "accepted_object_key"
    result ← core.merge_accepted_snapshot_to_curated contract (record {
      target_dsn = named_dsn hashdiff_replay e config.target_dsn "merge_curated" "lake";
      target_table_curated = config.target_table_curated;
      object_store_config = store;
      accepted_object_key = accepted_object_key;
      merge_load_batch_size = config.merge_load_batch_size;
      source_batch_size = config.source_batch_size;
      upsert_batch_size = config.upsert_batch_size;
    })
    ok (merge_metrics result)

  unfoldable pub merge_curated_replay : (contract_payload run_context : Dict) → Action Dict
  unfolding merge_snapshot
  merge_curated_replay contract_payload run_context db =
      and_then (lift (load_run_config hashdiff_replay e) db) λ config db.
        and_then (lift (registry.from_registry_payload contract_payload) db) λ contract db.
          and_then (lift (store_of hashdiff_replay e config) db) λ store db.
            and_then (lift (subscript_text e.host run_context "run_id") db) λ run_id db.
              execute_stage e run_id "merge_curated"
                (lift (merge_snapshot config contract store run_context)) db

-- What `finalize_replay` records.
abbrev pub finalize_task : FinalizeReplayTask
finalize_task = record {
  task_id = "merge_curated_replay";
  stages_prefix = "Replay failed at stages: ";
  tasks_prefix = "Replay failed at tasks: ";
  failed_payload = λ failed_tasks run_context.
      ("failed_tasks", list (texts failed_tasks))
      ∷ ("accepted_object_key", get run_context "accepted_object_key")
      ∷ ("validation_manifest_key", get run_context "validation_manifest_key")
      ∷ ("parent_run_id", get run_context "parent_run_id")
      ∷ ("replayed_contract_version", get run_context "replayed_contract_version")
      ∷ ("replay_reason", get run_context "replay_reason")
      ∷ [];
  payload = λ applied run_context. update applied (
      ("accepted_object_key", get run_context "accepted_object_key")
      ∷ ("validation_manifest_key", get run_context "validation_manifest_key")
      ∷ ("parent_run_id", get run_context "parent_run_id")
      ∷ ("replay_reason", get run_context "replay_reason")
      ∷ ("replayed_contract_version", get run_context "replayed_contract_version")
      ∷ []);
}
