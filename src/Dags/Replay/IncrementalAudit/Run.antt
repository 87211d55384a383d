-- ===== src/Dags/Replay/IncrementalAudit/Run.antt =====
-- The start, the end and the whole of a run of dags/replay_contract_incremental_audit_from_minio.py.
use ingestion_airflow.Common.{ℕ, String, ◌≡◌, refl, Option, none, some, [], ◌∷◌}
use ingestion_airflow.Py.Exc.{ok}
use ingestion_airflow.Py.Value.{Host}
use ingestion_airflow.Py.Dict.{DictOf, Dict}
use ingestion_airflow.Config.Steps.{subscript_text}
use ingestion_airflow.Config.IncrementalAuditReplay.{IncrementalAuditReplayRunConfig, pipeline_id}
use ingestion_airflow.Db.Tables.{AuditDb, Action, parse_run_id}
use ingestion_airflow.Db.Locks.Holding.{lock_of, IsNotHeldBy}
use ingestion_airflow.Dags.{TaskEnv, lift, load_run_config}
use ingestion_airflow.Dags.Core.{Registry}
use ingestion_airflow.Dags.IncrementalAudit.{Deltas}
use ingestion_airflow.Dags.Start.{start_failure, start_run}
use ingestion_airflow.Dags.Finalize.{Xcom, run_id_of, finalize_replay as finalize_of}
use ingestion_airflow.Dags.Graph.{task, task_of, task_of_two, run_tasks}
use ingestion_airflow.Dags.Graph.Starts.{start_run-Ends}
use ingestion_airflow.Dags.Graph.Runs.{
  carried_bind, Ends-HasStarted, returned-some, run_replay-IsNotHeldBy, task_of_two-HasStarted,
}
use ingestion_airflow.Dags.Replay.Delta.{resolve_replay_input as resolve_delta}
use ingestion_airflow.Dags.Replay.IncrementalAudit.{
  incremental_audit_replay, start_task, finalize_task, fetch_contract, apply_delta_replay_task,
  resolving,
}

unfoldable pub start_replay_run :
    TaskEnv → (fresh locked_at now : ℕ) → (contract_payload replay_input : Dict) → Action Dict
start_replay_run e fresh locked_at now contract_payload replay_input db =
    start_run incremental_audit_replay (start_task e replay_input) e fresh locked_at now
      contract_payload db

unfoldable pub finalize_replay : TaskEnv → Option Dict → Xcom → Action Dict
finalize_replay e run_context xcom db =
    finalize_of incremental_audit_replay finalize_task e run_context xcom db

-- The XCom value that a refusal pushes is left out of the run: no task reads it.
unfoldable pub resolve_replay_input : TaskEnv → Action Dict
resolve_replay_input e db = ((resolve_delta incremental_audit_replay resolving e db).0, db)

-- Each task has what it finds around it by its id.
module _ (e : String → TaskEnv) (registry : Registry) (core : Deltas registry.Contract) where
  unfoldable pub stages :
      (contract_payload run_context : Option Dict) → AuditDb → DictOf (Option Dict) × AuditDb
  stages contract_payload run_context db =
      let replayed =
        task_of_two contract_payload run_context
          (apply_delta_replay_task (e "apply_delta_replay") registry core) db in
      (("apply_delta_replay", replayed.0) ∷ [], replayed.1)

  unfoldable pub replay_contract_incremental_audit_from_minio :
      (fresh locked_at now : ℕ) → Action Dict
  replay_contract_incremental_audit_from_minio fresh locked_at now db =
      let resolved = task (resolve_replay_input (e "resolve_replay_input")) db in
      let contract =
        task_of resolved.0
          (λ replay_input. lift (fetch_contract (e "fetch_contract") registry core replay_input))
          resolved.1 in
      run_tasks
        (task_of_two contract.0 resolved.0
          (start_replay_run (e "start_replay_run") fresh locked_at now))
        (stages contract.0) (finalize_replay (e "finalize_replay")) contract.1

  stages-idle : (o : Option Dict) (db : AuditDb) → (stages o none db).1 ≡ db
  unfolding stages
  stages-idle none db = refl
  stages-idle (some c) db = refl

  fetched-keeps :
      (o : Option Dict) (db : AuditDb)
      → (task_of o
          (λ replay_input. lift (fetch_contract (e "fetch_contract") registry core replay_input))
          db).1
        ≡ db
  fetched-keeps none db = refl
  fetched-keeps (some a) db = refl

  context-carries :
      (host : Host) (t : TaskEnv) (config : IncrementalAuditReplayRunConfig) (run_id : String)
      (replay_input context : Dict)
      → (start_task t replay_input).build_context config run_id ≡ ok context
      → run_id_of host (some context) ≡ ok run_id
  context-carries host t config run_id replay_input context built =
      carried_bind host run_id (subscript_text t.host replay_input "delta_object_key") _ context
        built

  -- A run of the incremental replay does not keep the lock of its pipeline, whichever of its tasks fail and
  -- wherever: if it does not have the lock before, the configuration loads at the start and at the end, the id of
  -- the run is read back at the end, and the metrics of a failed start can be built for the input that is resolved.
  pub incremental_audit_replay_releases :
      (fresh locked_at now : ℕ) (config : IncrementalAuditReplayRunConfig) (db : AuditDb)
      → load_run_config incremental_audit_replay (e "start_replay_run") ≡ ok config
      → load_run_config incremental_audit_replay (e "finalize_replay") ≡ ok config
      → parse_run_id (e "finalize_replay").formats ((e "start_replay_run").formats.show_uuid fresh)
        ≡ ok fresh
      → ((replay_input : Dict)
          → (resolve_replay_input (e "resolve_replay_input") db).0 ≡ ok replay_input
          → (payload : Dict) × (start_failure incremental_audit_replay
                (start_task (e "start_replay_run") replay_input)
                (e "start_replay_run")
                config
                ((e "start_replay_run").formats.show_uuid fresh)
              ≡ ok payload))
      → IsNotHeldBy fresh (lock_of (pipeline_id config) db)
      → IsNotHeldBy fresh (
          lock_of
            (pipeline_id config)
            (replay_contract_incremental_audit_from_minio fresh locked_at now db).1)
  unfolding replay_contract_incremental_audit_from_minio start_replay_run finalize_replay
      resolve_replay_input
  incremental_audit_replay_releases fresh locked_at now config db loaded loaded_last parsed enriched
        clean =
      let t = e "start_replay_run" in
      let run_id = t.formats.show_uuid fresh in
      let resolved = task (resolve_replay_input (e "resolve_replay_input")) db in
      let contract =
        task_of resolved.0
          (λ replay_input. lift (fetch_contract (e "fetch_contract") registry core replay_input))
          resolved.1 in
      let before : IsNotHeldBy fresh (lock_of (pipeline_id config) contract.1) =
        rw (fetched-keeps resolved.0 resolved.1) clean in
      run_replay-IsNotHeldBy incremental_audit_replay (e "finalize_replay") config run_id fresh
        loaded_last parsed (stages contract.0) (stages-idle contract.0) finalize_task
        (task_of_two contract.0 resolved.0 (start_replay_run t fresh locked_at now)) contract.1
        (task_of_two-HasStarted incremental_audit_replay (e "finalize_replay") config run_id fresh
          contract.0 resolved.0 (start_replay_run t fresh locked_at now) contract.1 before
          (λ contract_payload replay_input taken.
            let found = enriched replay_input (
              returned-some (resolve_replay_input (e "resolve_replay_input") db).0 replay_input
                taken) in
            Ends-HasStarted incremental_audit_replay (start_task t replay_input) t
              (e "finalize_replay") fresh locked_at now config
              (λ context built.
                context-carries (e "finalize_replay").host t config run_id replay_input context
                  built)
              _
              (start_run-Ends incremental_audit_replay (start_task t replay_input) t fresh locked_at
                now config found.0 found.1 contract_payload contract.1 loaded before)))
