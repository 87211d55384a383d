-- ===== src/Dags/Outcome.antt =====
-- What the record of a stage says after `_execute_stage`.
use ingestion_airflow.Common.{ℕ, String, ◌≡◌, refl, Option, none, some}
use ingestion_airflow.Py.Exc.{Exception, ok, raised}
use ingestion_airflow.Py.Dict.{Dict}
use ingestion_airflow.Runtime.ObjectStore.{ObjectStoreConfig}
use ingestion_airflow.Observability.{has_artifact_keys}
use ingestion_airflow.Db.Table.{first_where}
use ingestion_airflow.Db.Tables.{StageAudit, AuditDb, Formats, Action, parse_run_id}
use ingestion_airflow.Db.Stages.{
  is_stage, start_stage_audit, finish_stage_audit, read_stage_audit_record, stage-finish,
}
use ingestion_airflow.Dags.{
  Dag, TaskEnv, enrich, scope_of, load_run_config, store_if, failure_payload,
}
use ingestion_airflow.Dags.Stage.{attempt_stage, fail_stage, execute_stage}

module _ (formats : Formats) (now : ℕ) (run_id stage_name : String) {u : ℕ} (db : AuditDb)
    (parsed : parse_run_id formats run_id ≡ ok u) where
  start-returns :
      start_stage_audit formats now run_id stage_name db
      ≡ (ok tt, (start_stage_audit formats now run_id stage_name db).1)
  unfolding start_stage_audit
  start-returns = rw parsed refl

  finish-returns :
      (status : String) (metrics_json : Option Dict) (error_text : Option String)
      → finish_stage_audit formats now run_id stage_name status metrics_json error_text db ≡ (
        ok tt,
        (finish_stage_audit formats now run_id stage_name status metrics_json error_text db).1,
      )
  unfolding finish_stage_audit
  finish-returns status metrics_json error_text = rw parsed refl

  -- The record that is read after a finish.
  read-finish :
      (status : String) (payload : Dict) (error_text : Option String) (row : StageAudit)
      → first_where (is_stage u stage_name) db.stage_audit ≡ some row
      → (read_stage_audit_record formats run_id stage_name
          (finish_stage_audit formats now run_id stage_name status
            (some payload)
            error_text
            db).1).0
        ≡ ok (
            some (record {
              status = status;
              metrics_json = payload;
              error_text = error_text;
              started_at = row.started_at;
              finished_at = some now;
            }))
  unfolding read_stage_audit_record
  read-finish status payload error_text row h = rw parsed (
      rw (
        stage-finish formats run_id stage_name parsed now status (some payload) error_text db
          (some row) h))

module _ (d : Dag) (e : TaskEnv) (run_id stage_name : String) (action : Action Dict)
    (db after : AuditDb) (config : d.Config) (u : ℕ) (row : StageAudit)
    (parsed : parse_run_id e.formats run_id ≡ ok u) (loaded : load_run_config d e ≡ ok config)
    (stays : first_where (is_stage u stage_name) after.stage_audit ≡ some row) where
  failed-eq :
      (exc : Exception) (payload : Dict)
      → action (start_stage_audit e.formats e.started run_id stage_name db).1 ≡ (raised exc, after)
      → enrich e none (scope_of d config run_id (some stage_name)) (failure_payload d e exc)
        ≡ ok payload
      → execute_stage d e run_id stage_name action db ≡ (
        raised exc,
        (finish_stage_audit e.formats e.finished run_id stage_name "failed"
            (some payload)
            (some exc.message)
            after).1,
      )
  unfolding execute_stage attempt_stage fail_stage
  failed-eq exc payload acted enriched =
      rw
        (
          loaded,
          start-returns e.formats e.started run_id stage_name db parsed,
          acted,
          enriched,
          finish-returns e.formats e.finished run_id stage_name after parsed "failed" (some payload)
              (some exc.message),
        )
        refl

  -- Where the action of a stage raises, the stage raises the same exception, and its record says that it
  -- failed, with the text of the exception: if the configuration loads, the action leaves the
  -- stage a record, and the payload of the failure can be enriched.
  pub stage_failure :
      (exc : Exception) (payload : Dict)
      → action (start_stage_audit e.formats e.started run_id stage_name db).1 ≡ (raised exc, after)
      → enrich e none (scope_of d config run_id (some stage_name)) (failure_payload d e exc)
        ≡ ok payload
      → ((execute_stage d e run_id stage_name action db).0 ≡ raised exc)
        × ((read_stage_audit_record e.formats run_id stage_name
              (execute_stage d e run_id stage_name action db).1).0
            ≡ ok (
                some (record {
                  status = "failed";
                  metrics_json = payload;
                  error_text = some exc.message;
                  started_at = row.started_at;
                  finished_at = some e.finished;
                })))
  stage_failure exc payload acted enriched = rw (failed-eq exc payload acted enriched) (
    refl,
    read-finish e.formats e.finished run_id stage_name after parsed "failed" payload
        (some exc.message) row stays,
  )

  succeeded-eq :
      (result metrics : Dict) (store : Option ObjectStoreConfig)
      → action (start_stage_audit e.formats e.started run_id stage_name db).1 ≡ (ok result, after)
      → store_if (has_artifact_keys e.host result) d e config ≡ ok store
      → enrich e store (scope_of d config run_id (some stage_name)) result ≡ ok metrics
      → execute_stage d e run_id stage_name action db ≡ (
        ok metrics,
        (finish_stage_audit e.formats e.finished run_id stage_name "success"
            (some metrics)
            none
            after).1,
      )
  unfolding execute_stage attempt_stage
  succeeded-eq result metrics store acted stored enriched =
      rw
        (
          loaded,
          start-returns e.formats e.started run_id stage_name db parsed,
          acted,
          stored,
          enriched,
          finish-returns e.formats e.finished run_id stage_name after parsed "success"
              (some metrics) none,
        )
        refl

  -- Where the action of a stage returns, the stage returns the enriched metrics, and its record says
  -- that it succeeded with them: if the configuration loads, the action leaves the stage a record,
  -- and the object store is configured and the metrics enriched without an exception.
  pub stage_success :
      (result metrics : Dict) (store : Option ObjectStoreConfig)
      → action (start_stage_audit e.formats e.started run_id stage_name db).1 ≡ (ok result, after)
      → store_if (has_artifact_keys e.host result) d e config ≡ ok store
      → enrich e store (scope_of d config run_id (some stage_name)) result ≡ ok metrics
      → ((execute_stage d e run_id stage_name action db).0 ≡ ok metrics)
        × ((read_stage_audit_record e.formats run_id stage_name
              (execute_stage d e run_id stage_name action db).1).0
            ≡ ok (
                some (record {
                  status = "success";
                  metrics_json = metrics;
                  error_text = none;
                  started_at = row.started_at;
                  finished_at = some e.finished;
                })))
  stage_success result metrics store acted stored enriched =
      rw (succeeded-eq result metrics store acted stored enriched) (
        refl,
        read-finish e.formats e.finished run_id stage_name after parsed "success" metrics none row
            stays,
      )
