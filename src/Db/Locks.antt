-- ===== src/Db/Locks.antt =====
-- `acquire_pipeline_lock` and `release_pipeline_lock` of ingestion_airflow/db/audit.py.
pub mod Holding
pub mod Exclusion
pub mod Refines
use ingestion_airflow.Common.{ℕ, ◌+◌, ◌*◌, String, Bool, true, false, ◌&&◌, ◌==◌, str_eq, leb}
use ingestion_airflow.Py.Exc.{ok}
use ingestion_airflow.Db.Table.{upsert, delete_where}
use ingestion_airflow.Db.Tables.{PipelineLock, AuditDb, Formats, Action, parse_run_id, with_run_id}

abbrev pub default_ttl_seconds : ℕ
default_ttl_seconds = 7200

abbrev pub is_lock_of : String → PipelineLock → Bool
is_lock_of pipeline_id r = str_eq r.pipeline_id pipeline_id

abbrev pub is_expired : ℕ → PipelineLock → Bool
is_expired now r = leb r.lock_until now

abbrev pub take_over : PipelineLock → PipelineLock → PipelineLock
take_over new r = record r {
  run_id = new.run_id;
  locked_at = new.locked_at;
  lock_until = new.lock_until;
}

-- `locked_at` is the caller's clock, `now` the clock of the database.
abbrev pub new_lock : String → ℕ → ℕ → ℕ → PipelineLock
new_lock pipeline_id run_uuid locked_at ttl_seconds = record {
  pipeline_id = pipeline_id;
  run_id = run_uuid;
  locked_at = locked_at;
  lock_until = locked_at + ttl_seconds * 1_000_000;
}

unfoldable pub insert_lock : PipelineLock → ℕ → Action Bool
insert_lock new now db =
    let (rows, returned) =
      upsert (is_lock_of new.pipeline_id) (is_expired now) (take_over new) new db.pipeline_lock in
    (ok returned, record db { pipeline_lock = rows })

unfoldable pub acquire_pipeline_lock : Formats → ℕ → ℕ → String → String → ℕ → Action Bool
unfolding insert_lock
acquire_pipeline_lock formats locked_at now pipeline_id run_id ttl_seconds =
    with_run_id (parse_run_id formats run_id)
      (λ run_uuid. insert_lock (new_lock pipeline_id run_uuid locked_at ttl_seconds) now)

abbrev pub is_held_by : String → ℕ → PipelineLock → Bool
is_held_by pipeline_id run_uuid r = str_eq r.pipeline_id pipeline_id && r.run_id == run_uuid

unfoldable pub release_pipeline_lock : Formats → String → String → Action (Unit {0})
release_pipeline_lock formats pipeline_id run_id =
    with_run_id (parse_run_id formats run_id) (λ run_uuid db. (
      ok tt,
      record db { pipeline_lock = delete_where (is_held_by pipeline_id run_uuid) db.pipeline_lock },
    ))
