-- ===== src/Dags/Graph/Starts.antt =====
-- How the start of a run ends: with the context of the run, or without the lock.
use ingestion_airflow.Common.{
  ℕ, ◌≤◌, ◌<◌, ◌≡◌, refl, inl, inr, ◌⊎◌, Bool, true, false, Option, none, some, arith, Option-cases,
}
use ingestion_airflow.Py.Exc.{Exception, Result, ok, raised}
use ingestion_airflow.Py.Dict.{Dict}
use ingestion_airflow.Db.Table.{first_where}
use ingestion_airflow.Db.Tables.{PipelineLock, AuditDb}
use ingestion_airflow.Db.Locks.{default_ttl_seconds, acquire_pipeline_lock}
use ingestion_airflow.Db.Locks.Holding.{
  lock_of, IsFree, IsNotHeldBy, acquire_iff, acquire_refused, release_lem, release-returns,
}
use ingestion_airflow.Db.Runs.{is_run, start_run_audit, finish_run_audit}
use ingestion_airflow.Dags.{Dag, TaskEnv, load_run_config}
use ingestion_airflow.Dags.Start.{
  StartTask, start_failure, fail_start, after_lock, lock_is_held, start_run,
}
use ingestion_airflow.Dags.Locked.{started_run, with_run, shown_parsed}

IsFree-or_held :
    (now : ℕ) (o : Option PipelineLock)
    → IsFree now o ⊎ ((r : PipelineLock) × (o ≡ some r) × (now < r.lock_until))
IsFree-or_held now none = inl tt
IsFree-or_held now (some r) = go (ground arith)
  where
    go :
        (r.lock_until ≤ now) ⊎ (now < r.lock_until)
        → IsFree now (some r) ⊎ ((q : PipelineLock) × (some r ≡ some q) × (now < q.lock_until))
    go (inl h) = inl h
    go (inr h) = inr (r, refl, h)

module _ (d : Dag) (s : StartTask d) (e : TaskEnv) (fresh locked_at now : ℕ)
    (config : d.Config) where
  -- A start that returned has built its context; one that raised has not kept the lock.
  abbrev pub Ends : Result Dict × AuditDb → Type 0
  Ends (ok context, db) = s.build_context config (e.formats.show_uuid fresh) ≡ ok context
  Ends (raised x, db) = IsNotHeldBy fresh (lock_of (d.pipeline_id config) db)

  module _ (payload : Dict)
      (enriched : start_failure d s e config (e.formats.show_uuid fresh) ≡ ok payload) where
    failed_held :
        (x : Exception) (db : AuditDb)
        → Ends (fail_start d s e config (e.formats.show_uuid fresh) true x db)
    unfolding fail_start finish_run_audit
    failed_held x db =
        rw
          (
            enriched,
            shown_parsed e fresh,
            release-returns e.formats (d.pipeline_id config) (e.formats.show_uuid fresh) fresh _
                (shown_parsed e fresh),
          )
          (release_lem e.formats (d.pipeline_id config) (e.formats.show_uuid fresh) fresh _
            (shown_parsed e fresh))

    failed_free :
        (x : Exception) (db : AuditDb)
        → IsNotHeldBy fresh (lock_of (d.pipeline_id config) db)
        → Ends (fail_start d s e config (e.formats.show_uuid fresh) false x db)
    unfolding fail_start finish_run_audit lock_of
    failed_free x db clean = rw (enriched, shown_parsed e fresh) clean

    after_taken :
        (r : Result Dict) (db : AuditDb)
        → s.build_context config (e.formats.show_uuid fresh) ≡ r
        → Ends (after_lock d s e config (e.formats.show_uuid fresh) (ok true, db))
    unfolding after_lock
    after_taken (ok c) db built = rw built built
    after_taken (raised x) db built = rw built (failed_held x db)

    after_granted :
        (r : Result Bool × AuditDb)
        → r.0 ≡ ok true
        → Ends (after_lock d s e config (e.formats.show_uuid fresh) r)
    after_granted (ok true, db) h =
        after_taken (s.build_context config (e.formats.show_uuid fresh)) db refl
    after_granted (ok false, db) h = absurd cc
    after_granted (raised x, db) h = absurd cc

    after_lock-Ends :
        (db : AuditDb)
        → IsNotHeldBy fresh (lock_of (d.pipeline_id config) db)
        → Ends (
            after_lock d s e config (e.formats.show_uuid fresh) (
              acquire_pipeline_lock e.formats locked_at now
                (d.pipeline_id config)
                (e.formats.show_uuid fresh)
                default_ttl_seconds
                db))
    unfolding after_lock
    after_lock-Ends db clean = elim (IsFree-or_held now (lock_of (d.pipeline_id config) db)) [
      | inl free ↦ after_granted _ (
          (acquire_iff e.formats locked_at now (d.pipeline_id config) (e.formats.show_uuid fresh)
              default_ttl_seconds db (shown_parsed e fresh)).1
            free)
      | inr h ↦
          rw
            (acquire_refused e.formats locked_at now (d.pipeline_id config)
              (e.formats.show_uuid fresh) default_ttl_seconds db (shown_parsed e fresh) h.0 h.1 h.2)
            (failed_free (lock_is_held d config) db clean)
    ]

    pub start_run-Ends :
        (contract_payload : Dict) (db : AuditDb)
        → load_run_config d e ≡ ok config
        → IsNotHeldBy fresh (lock_of (d.pipeline_id config) db)
        → Ends (start_run d s e fresh locked_at now contract_payload db)
    unfolding start_run start_run_audit lock_of
    start_run-Ends contract_payload db loaded clean =
        rw loaded (elim (Option-cases (first_where (is_run fresh) db.run_audit)) [
          | inl new ↦
              rw new (
                after_lock-Ends (with_run (started_run d e config fresh contract_payload) db) clean)
          | inr used ↦ rw used.1 clean
        ])
