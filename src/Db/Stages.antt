-- ===== src/Db/Stages.antt =====
-- The stage records of ingestion_airflow/db/audit.py.
use ingestion_airflow.Common.{
  ℕ, String, ◌≡◌, refl, Bool, true, ◌&&◌, Option, none, some, [], arith, ◌==◌, str_eq, eq_refl,
}
use ingestion_airflow.Py.Exc.{Result, ok}
use ingestion_airflow.Py.Dict.{Dict}
use ingestion_airflow.Db.Table.{
  first_where, update_where, upsert_always, first_where-upsert, first_where-update, upserted,
}
use ingestion_airflow.Db.Tables.{StageAudit, AuditDb, Formats, Action, parse_run_id, with_run_id}

abbrev pub is_stage : ℕ → String → StageAudit → Bool
is_stage run_uuid stage_name r = r.run_id == run_uuid && str_eq r.stage_name stage_name

-- `dict(metrics_json or {})`
abbrev pub or_empty : Option Dict → Dict
or_empty none = []
or_empty (some d) = d

abbrev pub running_stage : ℕ → String → ℕ → StageAudit
running_stage run_uuid stage_name now = record {
  run_id = run_uuid;
  stage_name = stage_name;
  status = "running";
  started_at = now;
  finished_at = none;
  metrics_json = some [];
  error_text = none;
}

abbrev pub restart_stage : ℕ → StageAudit → StageAudit
restart_stage now r = record r {
  status = "running";
  started_at = now;
  finished_at = none;
  metrics_json = some [];
  error_text = none;
}

unfoldable pub start_stage_audit : Formats → ℕ → String → String → Action (Unit {0})
start_stage_audit formats now run_id stage_name = with_run_id (parse_run_id formats run_id) (λ u db.
    (
      ok tt,
      record db {
        stage_audit =
            upsert_always (is_stage u stage_name) (restart_stage now)
              (running_stage u stage_name now) db.stage_audit;
      },
    ))

abbrev pub finish_stage : ℕ → String → Option Dict → Option String → StageAudit → StageAudit
finish_stage now status metrics_json error_text r = record r {
  status = status;
  finished_at = some now;
  metrics_json = some (or_empty metrics_json);
  error_text = error_text;
}

unfoldable pub finish_stage_audit :
    Formats → ℕ → String → String → String → Option Dict → Option String → Action (Unit {0})
finish_stage_audit formats now run_id stage_name status metrics_json error_text =
    with_run_id (parse_run_id formats run_id) (λ u db. (
      ok tt,
      record db {
        stage_audit =
            update_where (is_stage u stage_name) (finish_stage now status metrics_json error_text)
              db.stage_audit;
      },
    ))

abbrev pub is_success : ℕ → String → StageAudit → Bool
is_success u stage_name r = is_stage u stage_name r && str_eq r.status "success"

abbrev pub metrics_of : Option StageAudit → Option Dict
metrics_of none = none
metrics_of (some r) = some (or_empty r.metrics_json)

unfoldable pub read_stage_audit_metrics : Formats → String → String → Action (Option Dict)
read_stage_audit_metrics formats run_id stage_name =
    with_run_id (parse_run_id formats run_id)
      (λ u db. (ok (metrics_of (first_where (is_success u stage_name) db.stage_audit)), db))

-- The dictionary that `read_stage_audit_record` builds.
pub record StageRecord : Type 0 where
  pub status : String
  pub metrics_json : Dict
  pub error_text : Option String
  pub started_at : ℕ
  pub finished_at : Option ℕ

abbrev pub record_of : Option StageAudit → Option StageRecord
record_of none = none
record_of (some r) = some (record {
  status = r.status;
  metrics_json = or_empty r.metrics_json;
  error_text = r.error_text;
  started_at = r.started_at;
  finished_at = r.finished_at;
})

unfoldable pub read_stage_audit_record : Formats → String → String → Action (Option StageRecord)
read_stage_audit_record formats run_id stage_name =
    with_run_id (parse_run_id formats run_id)
      (λ u db. (ok (record_of (first_where (is_stage u stage_name) db.stage_audit)), db))

is_stage_self :
    (u : ℕ) (stage_name : String) (now : ℕ)
    → is_stage u stage_name (running_stage u stage_name now) ≡ true
is_stage_self u stage_name now = rw (eq_refl stage_name) (ground arith)

module _ (formats : Formats) (run_id stage_name : String) {u : ℕ}
    (parsed : parse_run_id formats run_id ≡ ok u) where
  -- The row of the stage after it is started.
  pub stage-start :
      (now : ℕ) (db : AuditDb) (o : Option StageAudit)
      → first_where (is_stage u stage_name) db.stage_audit ≡ o
      → first_where
          (is_stage u stage_name)
          (start_stage_audit formats now run_id stage_name db).1.stage_audit
        ≡ upserted (λ _. true) (restart_stage now) (running_stage u stage_name now) o
  unfolding start_stage_audit
  stage-start now db o e = rw parsed (
      rw
        (first_where-upsert (is_stage u stage_name) (λ _. true) (restart_stage now)
          (running_stage u stage_name now) (is_stage_self u stage_name now) (λ r h. h)
          db.stage_audit)
        (rw e))

  pub stage-finish :
      (now : ℕ) (status : String) (metrics_json : Option Dict) (error_text : Option String)
      (db : AuditDb) (o : Option StageAudit)
      → first_where (is_stage u stage_name) db.stage_audit ≡ o
      → first_where
          (is_stage u stage_name)
          (finish_stage_audit formats now run_id stage_name status metrics_json error_text
            db).1.stage_audit
        ≡ elim o [ none ↦ none | some r ↦ some (finish_stage now status metrics_json error_text r) ]
  unfolding finish_stage_audit
  stage-finish now status metrics_json error_text db o e = rw parsed (
      rw
        (first_where-update (is_stage u stage_name)
          (finish_stage now status metrics_json error_text) (λ r h. h) db.stage_audit)
        (rw e))

  -- Where the run id parses, the record that is read after a stage was started and finished has
  -- the outcome of the finish and the time of the start, whatever the tables held before, an
  -- earlier attempt at the stage included.
  pub stage_record_after_finish :
      (started finished : ℕ) (status : String) (metrics_json : Option Dict)
      (error_text : Option String) (db : AuditDb)
      → (read_stage_audit_record formats run_id stage_name
          (finish_stage_audit formats finished run_id stage_name status metrics_json error_text
            (start_stage_audit formats started run_id stage_name db).1).1).0
        ≡ ok (
            some (record {
              status = status;
              metrics_json = or_empty metrics_json;
              error_text = error_text;
              started_at = started;
              finished_at = some finished;
            }))
  unfolding read_stage_audit_record
  stage_record_after_finish started finished status metrics_json error_text db = rw parsed (
      rw
        (stage-finish finished status metrics_json error_text
          (start_stage_audit formats started run_id stage_name db).1 _
          (stage-start started db (first_where (is_stage u stage_name) db.stage_audit) refl))
        (go (first_where (is_stage u stage_name) db.stage_audit)))
    where
      go :
          (o : Option StageAudit)
          → ◌≡◌ {A = Result (Option StageRecord)}
              (ok (
                record_of
                  (elim (upserted
                    (λ _. true)
                    (restart_stage started)
                    (running_stage u stage_name started)
                    o) [
                      | none ↦ none
                      | some r ↦ some (finish_stage finished status metrics_json error_text r)
                    ])))
              (ok (
                some (record {
                  status = status;
                  metrics_json = or_empty metrics_json;
                  error_text = error_text;
                  started_at = started;
                  finished_at = some finished;
                })))
      go none = refl
      go (some r) = refl

  -- Where the run id parses, finishing a stage that has no record leaves it without one.
  pub finish_unstarted :
      (now : ℕ) (status : String) (metrics_json : Option Dict) (error_text : Option String)
      (db : AuditDb)
      → first_where (is_stage u stage_name) db.stage_audit ≡ none
      → (read_stage_audit_record formats run_id stage_name
          (finish_stage_audit formats now run_id stage_name status metrics_json error_text db).1).0
        ≡ ok none
  unfolding read_stage_audit_record
  finish_unstarted now status metrics_json error_text db h =
      rw parsed (rw (stage-finish now status metrics_json error_text db none h))
