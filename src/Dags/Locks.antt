-- ===== src/Dags/Locks.antt =====
-- The start of a run while the lock of the pipeline is free.
use ingestion_airflow.Common.{ℕ, ◌+◌, ◌*◌, ◌≡◌, refl, Bool, true, Option, none, some, arith}
use ingestion_airflow.Py.Exc.{Result, ok}
use ingestion_airflow.Py.Dict.{Dict}
use ingestion_airflow.Db.Table.{first_where, upserted}
use ingestion_airflow.Db.Tables.{PipelineLock, AuditDb}
use ingestion_airflow.Db.Locks.{
  default_ttl_seconds, new_lock, is_expired, take_over, acquire_pipeline_lock,
}
use ingestion_airflow.Db.Locks.Holding.{lock_of, lock_of-acquire, IsFree, acquire_iff}
use ingestion_airflow.Db.Runs.{is_run, start_run_audit}
use ingestion_airflow.Dags.{Dag, TaskEnv, load_run_config}
use ingestion_airflow.Dags.Start.{StartTask, after_lock, start_run}
use ingestion_airflow.Dags.Locked.{started_run, with_run, shown_parsed}

-- The lock of a pipeline as a run has it, until a time.
abbrev pub IsHeldUntil : ℕ → ℕ → Option PipelineLock → Type 0
IsHeldUntil run_uuid until none = ⊥
IsHeldUntil run_uuid until (some r) = (r.run_id ≡ run_uuid) × (r.lock_until ≡ until)

taken :
    (now : ℕ) (new : PipelineLock) (o : Option PipelineLock)
    → IsFree now o
    → IsHeldUntil new.run_id new.lock_until (upserted (is_expired now) (take_over new) new o)
taken now new none free = (refl, refl)
taken now new (some r) free = let e : is_expired now r ≡ true = ground arith in rw e (refl, refl)

module _ (d : Dag) (s : StartTask d) (e : TaskEnv) (fresh locked_at now : ℕ)
    (contract_payload : Dict) (db : AuditDb) (config : d.Config)
    (loaded : load_run_config d e ≡ ok config)
    (unused : first_where (is_run fresh) db.run_audit ≡ none)
    (free : IsFree now (lock_of (d.pipeline_id config) db)) (context : Dict)
    (built : s.build_context config (e.formats.show_uuid fresh) ≡ ok context) where
  locking_db : AuditDb
  locking_db = with_run (started_run d e config fresh contract_payload) db

  still_IsFree : IsFree now (lock_of (d.pipeline_id config) locking_db)
  unfolding lock_of locking_db
  still_IsFree = free

  abbrev locked : Result Bool × AuditDb
  locked =
      acquire_pipeline_lock e.formats locked_at now (d.pipeline_id config)
        (e.formats.show_uuid fresh) default_ttl_seconds locking_db

  granted : locked ≡ (ok true, locked.1)
  granted = λ i. (
    (acquire_iff e.formats locked_at now (d.pipeline_id config) (e.formats.show_uuid fresh)
          default_ttl_seconds locking_db (shown_parsed e fresh)).1
        still_IsFree i,
    locked.1,
  )

  granted-eq : start_run d s e fresh locked_at now contract_payload db ≡ (ok context, locked.1)
  unfolding start_run start_run_audit after_lock locking_db
  granted-eq = rw (loaded, unused, granted, built) refl

  -- Where the pipeline has no lock, or one that has run out, `start_run` returns the context of the run, and
  -- the run has the lock for the two hours after its clock: if the configuration loads, the
  -- run id is fresh, and the context can be built.
  pub start_run_locks :
      ((start_run d s e fresh locked_at now contract_payload db).0 ≡ ok context)
      × IsHeldUntil fresh (locked_at + 7200 * 1_000_000) (
          lock_of
            (d.pipeline_id config)
            (start_run d s e fresh locked_at now contract_payload db).1)
  start_run_locks = rw granted-eq (
    refl,
    rw
        (lock_of-acquire e.formats locked_at now (d.pipeline_id config) (e.formats.show_uuid fresh)
          default_ttl_seconds locking_db (shown_parsed e fresh))
        (taken now (new_lock (d.pipeline_id config) fresh locked_at default_ttl_seconds)
          (lock_of (d.pipeline_id config) locking_db) still_IsFree),
  )
