-- ===== src/Dags/Hashdiff/Run.antt =====
-- The start, the end and the whole of a run of dags/ingest_contract_hashdiff.py.
use ingestion_airflow.Common.{ℕ, String, ◌≡◌, refl, Option, none, some, [], ◌∷◌}
use ingestion_airflow.Py.Exc.{ok}
use ingestion_airflow.Py.Value.{Host}
use ingestion_airflow.Py.Dict.{DictOf, Dict}
use ingestion_airflow.Config.Ingestion.{IngestionRunConfig, pipeline_id}
use ingestion_airflow.Db.Tables.{AuditDb, Action, parse_run_id}
use ingestion_airflow.Db.Locks.Holding.{lock_of, IsNotHeldBy}
use ingestion_airflow.Dags.{TaskEnv, lift, load_run_config}
use ingestion_airflow.Dags.Core.{Registry, read_checkpoint as checkpoint_of, read_checkpoint-keeps}
use ingestion_airflow.Dags.Start.{start_failure, start_run as start_of}
use ingestion_airflow.Dags.Finalize.{Xcom, run_id_of, finalize_run as finalize_of}
use ingestion_airflow.Dags.Graph.{task, task_of_two, task_of_three, task_of_four, run_tasks}
use ingestion_airflow.Dags.Graph.Starts.{start_run-Ends}
use ingestion_airflow.Dags.Graph.Runs.{
  carried, Ends-HasStarted, run_tasks-IsNotHeldBy, task_of_two-HasStarted,
}
use ingestion_airflow.Dags.Hashdiff.{
  hashdiff, start_task, finalize_task, build_run_context, Snapshots, fetch_contract,
  extract_validate_land, merge_curated, persist_checkpoint_task,
}

unfoldable pub read_checkpoint : TaskEnv → Action Dict
read_checkpoint e db = checkpoint_of hashdiff e db

unfoldable pub start_run :
    TaskEnv → (fresh locked_at now : ℕ) → (contract_payload checkpoint : Dict) → Action Dict
start_run e fresh locked_at now contract_payload checkpoint db =
    start_of hashdiff (start_task checkpoint) e fresh locked_at now contract_payload db

unfoldable pub finalize_run : TaskEnv → Option Dict → Xcom → Action Dict
finalize_run e run_context xcom db = finalize_of hashdiff finalize_task e run_context xcom db

context-carries :
    (host : Host) (config : IngestionRunConfig) (run_id : String) (checkpoint context : Dict)
    → ok (build_run_context config run_id checkpoint) ≡ ok context
    → run_id_of host (some context) ≡ ok run_id
unfolding build_run_context
context-carries host config run_id checkpoint context built =
    let same : build_run_context config run_id checkpoint ≡ context = cc in
    carried host run_id _ context same

-- Each task has what it finds around it by its id.
module _ (e : String → TaskEnv) (registry : Registry) (core : Snapshots registry.Contract)
    (fresh locked_at now : ℕ) where
  unfoldable pub stages :
      (contract_payload checkpoint run_context : Option Dict)
      → AuditDb
      → DictOf (Option Dict) × AuditDb
  stages contract_payload checkpoint run_context db =
      let accepted =
        task_of_two contract_payload run_context
          (extract_validate_land (e "extract_validate_land") registry core) db in
      let merged =
        task_of_three contract_payload run_context accepted.0
          (merge_curated (e "merge_curated") registry core) accepted.1 in
      let persisted =
        task_of_four contract_payload run_context accepted.0 merged.0
          (persist_checkpoint_task (e "persist_checkpoint_task") registry core) merged.1 in
      (
        ("fetch_contract", contract_payload)
            ∷ ("read_checkpoint", checkpoint)
            ∷ ("start_run", run_context)
            ∷ ("extract_validate_land", accepted.0)
            ∷ ("merge_curated", merged.0)
            ∷ ("persist_checkpoint_task", persisted.0)
            ∷ [],
        persisted.1,
      )

  -- Tasks that do not wait for one another and leave the tables alone run in the order of their calls.
  unfoldable pub ingest_contract_hashdiff : Action Dict
  ingest_contract_hashdiff db =
      let contract = task (lift (fetch_contract (e "fetch_contract") registry core)) db in
      let checkpoint = task (read_checkpoint (e "read_checkpoint")) contract.1 in
      run_tasks
        (task_of_two contract.0 checkpoint.0 (start_run (e "start_run") fresh locked_at now))
        (stages contract.0 checkpoint.0) (finalize_run (e "finalize_run")) checkpoint.1

  stages-idle : (o p : Option Dict) (db : AuditDb) → (stages o p none db).1 ≡ db
  unfolding stages
  stages-idle none p db = refl
  stages-idle (some c) p db = refl

  -- A run of the hash-diff DAG does not keep the lock of its pipeline, whichever of its tasks fail and wherever:
  -- if it does not have the lock before, the configuration loads at the start and at the end, the id of the
  -- run is read back at the end, and the metrics of a failed start can be built.
  pub hashdiff_run_releases :
      (config : IngestionRunConfig) (payload : Dict) (db : AuditDb)
      → load_run_config hashdiff (e "start_run") ≡ ok config
      → load_run_config hashdiff (e "finalize_run") ≡ ok config
      → parse_run_id (e "finalize_run").formats ((e "start_run").formats.show_uuid fresh) ≡ ok fresh
      → start_failure hashdiff
          (start_task [])
          (e "start_run")
          config
          ((e "start_run").formats.show_uuid fresh)
        ≡ ok payload
      → IsNotHeldBy fresh (lock_of (pipeline_id config) db)
      → IsNotHeldBy fresh (lock_of (pipeline_id config) (ingest_contract_hashdiff db).1)
  unfolding ingest_contract_hashdiff read_checkpoint start_run finalize_run
  hashdiff_run_releases config payload db loaded loaded_last parsed enriched clean =
      let contract = task (lift (fetch_contract (e "fetch_contract") registry core)) db in
      let checkpoint = task (read_checkpoint (e "read_checkpoint")) contract.1 in
      let before : IsNotHeldBy fresh (lock_of (pipeline_id config) checkpoint.1) =
        rw (read_checkpoint-keeps hashdiff (e "read_checkpoint") db) clean in
      run_tasks-IsNotHeldBy hashdiff (e "finalize_run") config
        ((e "start_run").formats.show_uuid fresh) fresh loaded_last parsed
        (stages contract.0 checkpoint.0) (stages-idle contract.0 checkpoint.0) finalize_task
        (task_of_two contract.0 checkpoint.0 (start_run (e "start_run") fresh locked_at now))
        checkpoint.1
        (task_of_two-HasStarted hashdiff (e "finalize_run") config
          ((e "start_run").formats.show_uuid fresh) fresh contract.0 checkpoint.0
          (start_run (e "start_run") fresh locked_at now) checkpoint.1 before
          (λ contract_payload found taken.
            Ends-HasStarted hashdiff (start_task found) (e "start_run") (e "finalize_run") fresh
              locked_at now config
              (λ context built.
                context-carries (e "finalize_run").host config _ found context built)
              _
              (start_run-Ends hashdiff (start_task found) (e "start_run") fresh locked_at now config
                payload enriched contract_payload checkpoint.1 loaded before)))
