-- ===== src/Db/Runs.antt =====
-- The run records and the pipeline state of ingestion_airflow/db/audit.py.
pub mod State
use ingestion_airflow.Common.{
  ℕ, ◌≤◌, String, ◌≡◌, refl, ap, ◌⊎◌, inl, inr, Bool, true, false, Option, none, some, List, [],
  ◌∷◌, ◌++◌, arith, ◌==◌, ltb, str_eq, eq_iff, eq_refl, if◌then◌else◌, Bool-cases, All,
}
use ingestion_airflow.Py.Exc.{Result, ok, raise, foreign}
use ingestion_airflow.Py.Int.{ℤ, pos}
use ingestion_airflow.Py.Dict.{Dict}
use ingestion_airflow.Db.Table.{
  first_where, update_where, upsert_always, upserted, first_where-upsert, first_where-update,
}
use ingestion_airflow.Db.Tables.{
  RunAudit, PipelineState, AuditDb, Formats, Action, parse_run_id, with_run_id,
}
use ingestion_airflow.Db.Stages.{or_empty}

abbrev pub is_run : ℕ → RunAudit → Bool
is_run u r = r.run_id == u

-- The row that `start_run_audit` inserts; the counts are the defaults of the columns.
abbrev pub new_run : ℕ → ℕ → String → String → String → String → String → String → RunAudit
new_run u now pipeline_id strategy run_mode contract_id version checksum = record {
  run_id = u;
  pipeline_id = pipeline_id;
  strategy = strategy;
  run_mode = run_mode;
  contract_id = contract_id;
  version = version;
  checksum = checksum;
  started_at = now;
  finished_at = none;
  read_count = pos 0;
  insert_count = pos 0;
  update_count = pos 0;
  delete_count = pos 0;
  unchanged_count = pos 0;
  status = "running";
  metrics_json = none;
  error_text = none;
}

-- A primary key that is taken refuses the row.
abbrev pub insert_run : Formats → RunAudit → Option RunAudit → Action String
insert_run formats new none db =
    (ok (formats.show_uuid new.run_id), record db { run_audit = db.run_audit ++ new ∷ [] })
insert_run formats new (some r) db = (raise (foreign "IntegrityError") "duplicate key", db)

-- `run_id` is what `uuid.uuid4()` gave.
unfoldable pub start_run_audit :
    Formats
    → (run_id now : ℕ) → (pipeline_id strategy run_mode contract_id version checksum : String)
    → Action String
start_run_audit formats run_id now pipeline_id strategy run_mode contract_id version checksum db =
    insert_run formats
      (new_run run_id now pipeline_id strategy run_mode contract_id version checksum)
      (first_where (is_run run_id) db.run_audit) db

pub record Counts : Type 0 where
  pub read_count : ℤ
  pub insert_count : ℤ
  pub update_count : ℤ
  pub delete_count : ℤ
  pub unchanged_count : ℤ

abbrev pub finish_run : ℕ → String → Counts → Option Dict → Option String → RunAudit → RunAudit
finish_run now status counts metrics_json error_text r = record r {
  finished_at = some now;
  read_count = counts.read_count;
  insert_count = counts.insert_count;
  update_count = counts.update_count;
  delete_count = counts.delete_count;
  unchanged_count = counts.unchanged_count;
  status = status;
  metrics_json = some (or_empty metrics_json);
  error_text = error_text;
}

unfoldable pub finish_run_audit :
    Formats → ℕ → String → String → Counts → Option Dict → Option String → Action (Unit {0})
finish_run_audit formats now run_id status counts metrics_json error_text =
    with_run_id (parse_run_id formats run_id) (λ u db. (
      ok tt,
      record db {
        run_audit =
            update_where (is_run u) (finish_run now status counts metrics_json error_text)
              db.run_audit;
      },
    ))

-- `ORDER BY started_at DESC LIMIT 1` among the runs of a pipeline; of runs that started at one time,
-- the first that was inserted.
abbrev pub later_run : RunAudit → Option RunAudit → RunAudit
later_run r none = r
later_run r (some best) = if ltb r.started_at best.started_at then best else r

unfoldable pub latest_run : String → List RunAudit → Option RunAudit
latest_run pipeline_id [] = none
latest_run pipeline_id (r ∷ rows) =
    let rest = latest_run pipeline_id rows in
    if str_eq r.pipeline_id pipeline_id then some (later_run r rest) else rest

-- `latest["finished_at"] or latest["started_at"]`
abbrev pub run_time : RunAudit → ℕ
run_time r = elim r.finished_at [ none ↦ r.started_at | some t ↦ t ]

abbrev pub is_successful : RunAudit → Bool
is_successful r = str_eq r.status "success"

abbrev pub new_state : String → ℕ → RunAudit → PipelineState
new_state pipeline_id now latest = record {
  pipeline_id = pipeline_id;
  last_run_at = some (run_time latest);
  last_success_at = if is_successful latest then some (run_time latest) else none;
  last_status = some latest.status;
  last_error = if is_successful latest then none else latest.error_text;
  updated_at = now;
}

abbrev pub status_is_success : Option String → Bool
status_is_success none = false
status_is_success (some s) = str_eq s "success"

-- `excluded` is the row that was to be inserted.
abbrev pub merge_state : PipelineState → ℕ → PipelineState → PipelineState
merge_state excluded now r = record r {
  last_run_at = excluded.last_run_at;
  last_success_at =
      if status_is_success excluded.last_status then excluded.last_run_at else r.last_success_at;
  last_status = excluded.last_status;
  last_error = excluded.last_error;
  updated_at = now;
}

abbrev pub is_state_of : String → PipelineState → Bool
is_state_of pipeline_id r = str_eq r.pipeline_id pipeline_id

abbrev pub write_state : String → ℕ → Option RunAudit → AuditDb → AuditDb
write_state pipeline_id now none db = db
write_state pipeline_id now (some latest) db =
    let excluded = new_state pipeline_id now latest in
    record db {
      pipeline_state =
          upsert_always (is_state_of pipeline_id) (merge_state excluded now) excluded
            db.pipeline_state;
    }

unfoldable pub finalize_pipeline_state : ℕ → String → Action (Unit {0})
finalize_pipeline_state now pipeline_id db =
    (ok tt, write_state pipeline_id now (latest_run pipeline_id db.run_audit) db)
