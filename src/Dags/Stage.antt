-- ===== src/Dags/Stage.antt =====
-- `_execute_stage`, as each of the DAGs has it.
use ingestion_airflow.Common.{String, none, some}
use ingestion_airflow.Py.Exc.{Exception, ok, raised}
use ingestion_airflow.Py.Dict.{Dict}
use ingestion_airflow.Observability.{has_artifact_keys}
use ingestion_airflow.Db.Tables.{Action}
use ingestion_airflow.Db.Stages.{start_stage_audit, finish_stage_audit}
use ingestion_airflow.Dags.{
  Dag, TaskEnv, and_then, lift, except, enrich, scope_of, load_run_config, store_if,
  failure_payload,
}

-- The block under `try`.
unfoldable pub attempt_stage :
    (d : Dag) → TaskEnv → d.Config → (run_id stage_name : String) → Action Dict → Action Dict
attempt_stage d e config run_id stage_name action db =
    and_then (start_stage_audit e.formats e.started run_id stage_name db) λ _ db.
      and_then (action db) λ result db.
        and_then (lift (store_if (has_artifact_keys e.host result) d e config) db) λ store db.
          and_then (lift (enrich e store (scope_of d config run_id (some stage_name)) result) db)
            λ metrics_payload db.
              and_then
                (finish_stage_audit e.formats e.finished run_id stage_name "success"
                  (some metrics_payload) none db)
                λ _ db. (ok metrics_payload, db)

-- The block under `except`.
unfoldable pub fail_stage :
    (d : Dag) → TaskEnv → d.Config → (run_id stage_name : String) → Exception → Action Dict
fail_stage d e config run_id stage_name exc db =
    and_then
      (lift (enrich e none (scope_of d config run_id (some stage_name)) (failure_payload d e exc))
        db)
      λ payload db.
        and_then
          (finish_stage_audit e.formats e.finished run_id stage_name "failed" (some payload)
            (some exc.message) db)
          λ _ db. (raised exc, db)

unfoldable pub execute_stage :
    Dag → TaskEnv → (run_id stage_name : String) → Action Dict → Action Dict
execute_stage d e run_id stage_name action db =
    and_then (lift (load_run_config d e) db) λ config db.
      except (attempt_stage d e config run_id stage_name action db)
        (fail_stage d e config run_id stage_name)
