-- ===== src/Dags/IncrementalAudit/Run.antt =====
-- The start, the end and the whole of a run of dags/ingest_contract_incremental_audit.py.
use ingestion_airflow.Common.{ℕ, String, ◌≡◌, refl, Bool, true, false, Option, none, some, [], ◌∷◌}
use ingestion_airflow.Py.Exc.{ok}
use ingestion_airflow.Py.Value.{Host}
use ingestion_airflow.Py.Dict.{DictOf, Dict}
use ingestion_airflow.Config.IncrementalAudit.{IncrementalAuditRunConfig, pipeline_id}
use ingestion_airflow.Db.Tables.{AuditDb, Action, parse_run_id}
use ingestion_airflow.Db.Locks.Holding.{lock_of, IsNotHeldBy}
use ingestion_airflow.Dags.{TaskEnv, lift, load_run_config}
use ingestion_airflow.Dags.Core.{Registry, read_checkpoint as checkpoint_of, read_checkpoint-keeps}
use ingestion_airflow.Dags.Start.{start_failure, start_run as start_of}
use ingestion_airflow.Dags.Finalize.{Xcom, run_id_of, finalize_run as finalize_of}
use ingestion_airflow.Dags.Graph.{
  task, task_of_two, task_of_three, task_of_five, in_order, run_tasks,
}
use ingestion_airflow.Dags.Graph.Starts.{start_run-Ends}
use ingestion_airflow.Dags.Graph.Runs.{
  carried_bind, Ends-HasStarted, run_tasks-IsNotHeldBy, task_of_two-HasStarted,
}
use ingestion_airflow.Dags.IncrementalAudit.{
  incremental_audit, start_task, finalize_task, build_run_context, Deltas, fetch_contract,
  ensure_source_audit_capture_task, extract_validate_land_delta_task, apply_delta_task,
  persist_checkpoint_task,
}

unfoldable pub read_checkpoint : TaskEnv → Action Dict
read_checkpoint e db = checkpoint_of incremental_audit e db

unfoldable pub finalize_run : TaskEnv → Option Dict → Xcom → Action Dict
finalize_run e run_context xcom db =
    finalize_of incremental_audit finalize_task e run_context xcom db

-- Each task has what it finds around it by its id. The task that sets up the capture and the task that extracts do
-- not wait for one another, so that either may come first.
module _ (e : String → TaskEnv) (registry : Registry) (core : Deltas registry.Contract) where
  unfoldable pub start_run :
      TaskEnv → (fresh locked_at now : ℕ) → (contract_payload checkpoint : Dict) → Action Dict
  start_run t fresh locked_at now contract_payload checkpoint db =
      start_of incremental_audit (start_task t registry core checkpoint) t fresh locked_at now
        contract_payload db

  unfoldable pub stages :
      Bool
      → (contract_payload checkpoint run_context : Option Dict) → AuditDb
      → DictOf (Option Dict) × AuditDb
  stages capture_first contract_payload checkpoint run_context db =
      let (ensured, delta, then) =
        in_order capture_first
          (task_of_two contract_payload run_context
            (ensure_source_audit_capture_task (e "ensure_source_audit_capture") registry core))
          (task_of_two contract_payload run_context
            (extract_validate_land_delta_task (e "extract_validate_land_delta") registry core))
          db in
      let applied =
        task_of_three contract_payload run_context delta
          (apply_delta_task (e "apply_delta") registry core) then in
      let persisted =
        task_of_five contract_payload run_context ensured delta applied.0
          (persist_checkpoint_task (e "persist_checkpoint_task") registry core) applied.1 in
      (
        ("fetch_contract", contract_payload)
            ∷ ("read_checkpoint", checkpoint)
            ∷ ("start_run", run_context)
            ∷ ("ensure_source_audit_capture", ensured)
            ∷ ("extract_validate_land_delta", delta)
            ∷ ("apply_delta", applied.0)
            ∷ ("persist_checkpoint_task", persisted.0)
            ∷ [],
        persisted.1,
      )

  unfoldable pub ingest_contract_incremental_audit :
      (fresh locked_at now : ℕ) → (capture_first : Bool) → Action Dict
  ingest_contract_incremental_audit fresh locked_at now capture_first db =
      let contract = task (lift (fetch_contract (e "fetch_contract") registry core)) db in
      let checkpoint = task (read_checkpoint (e "read_checkpoint")) contract.1 in
      run_tasks
        (task_of_two contract.0 checkpoint.0 (start_run (e "start_run") fresh locked_at now))
        (stages capture_first contract.0 checkpoint.0) (finalize_run (e "finalize_run"))
        checkpoint.1

  stages-idle : (b : Bool) (o p : Option Dict) (db : AuditDb) → (stages b o p none db).1 ≡ db
  unfolding stages
  stages-idle true none p db = refl
  stages-idle true (some c) p db = refl
  stages-idle false none p db = refl
  stages-idle false (some c) p db = refl

  context-carries :
      (host : Host) (t : TaskEnv) (config : IncrementalAuditRunConfig) (run_id : String)
      (checkpoint context : Dict)
      → build_run_context t registry core config run_id checkpoint ≡ ok context
      → run_id_of host (some context) ≡ ok run_id
  unfolding build_run_context
  context-carries host t config run_id checkpoint context built =
      carried_bind host run_id (core.checkpoint_watermark_from_payload checkpoint) _ context built

  -- A run of the incremental DAG does not keep the lock of its pipeline, whichever of its tasks fail and
  -- wherever, and whether the capture is set up before the extraction or after it: if it does not have the lock
  -- before, the configuration loads at the start and at the end, the id of the run is read back at the
  -- end, and the metrics of a failed start can be built.
  pub incremental_audit_run_releases :
      (fresh locked_at now : ℕ) (capture_first : Bool) (config : IncrementalAuditRunConfig)
      (payload : Dict) (db : AuditDb)
      → load_run_config incremental_audit (e "start_run") ≡ ok config
      → load_run_config incremental_audit (e "finalize_run") ≡ ok config
      → parse_run_id (e "finalize_run").formats ((e "start_run").formats.show_uuid fresh) ≡ ok fresh
      → start_failure incremental_audit
          (start_task (e "start_run") registry core [])
          (e "start_run")
          config
          ((e "start_run").formats.show_uuid fresh)
        ≡ ok payload
      → IsNotHeldBy fresh (lock_of (pipeline_id config) db)
      → IsNotHeldBy fresh (
          lock_of
            (pipeline_id config)
            (ingest_contract_incremental_audit fresh locked_at now capture_first db).1)
  unfolding ingest_contract_incremental_audit read_checkpoint start_run finalize_run
  incremental_audit_run_releases fresh locked_at now capture_first config payload db loaded
        loaded_last parsed enriched clean =
      let contract = task (lift (fetch_contract (e "fetch_contract") registry core)) db in
      let checkpoint = task (read_checkpoint (e "read_checkpoint")) contract.1 in
      let before : IsNotHeldBy fresh (lock_of (pipeline_id config) checkpoint.1) =
        rw (read_checkpoint-keeps incremental_audit (e "read_checkpoint") db) clean in
      run_tasks-IsNotHeldBy incremental_audit (e "finalize_run") config
        ((e "start_run").formats.show_uuid fresh) fresh loaded_last parsed
        (stages capture_first contract.0 checkpoint.0)
        (stages-idle capture_first contract.0 checkpoint.0) finalize_task
        (task_of_two contract.0 checkpoint.0 (start_run (e "start_run") fresh locked_at now))
        checkpoint.1
        (task_of_two-HasStarted incremental_audit (e "finalize_run") config
          ((e "start_run").formats.show_uuid fresh) fresh contract.0 checkpoint.0
          (start_run (e "start_run") fresh locked_at now) checkpoint.1 before
          (λ contract_payload found taken.
            Ends-HasStarted incremental_audit (start_task (e "start_run") registry core found)
              (e "start_run") (e "finalize_run") fresh locked_at now config
              (λ context built.
                context-carries (e "finalize_run").host (e "start_run") config _ found context
                  built)
              _
              (start_run-Ends incremental_audit (start_task (e "start_run") registry core found)
                (e "start_run") fresh locked_at now config payload enriched contract_payload
                checkpoint.1 loaded before)))
