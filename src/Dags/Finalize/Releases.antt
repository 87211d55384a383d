-- ===== src/Dags/Finalize/Releases.antt =====
-- What the end of a run leaves behind, whatever happened before.
use ingestion_airflow.Common.{ℕ, String, ◌≡◌, refl, ap, Option, none, some}
use ingestion_airflow.Py.Exc.{Result, ok, raised}
use ingestion_airflow.Py.Dict.{Dict}
use ingestion_airflow.Db.Tables.{RunAudit, AuditDb, Action, parse_run_id}
use ingestion_airflow.Db.Locks.{release_pipeline_lock}
use ingestion_airflow.Db.Locks.Holding.{lock_of, IsNotHeldBy, release_lem, release-returns}
use ingestion_airflow.Db.Runs.{latest_run, write_state, finalize_pipeline_state}
use ingestion_airflow.Dags.{Dag, TaskEnv}
use ingestion_airflow.Dags.Finalize.{run_id_of, close, closing, finalized}

lock_of-write_state :
    (p q : String) (now : ℕ) (o : Option RunAudit) (db : AuditDb)
    → lock_of p (write_state q now o db) ≡ lock_of p db
unfolding lock_of
lock_of-write_state p q now none db = refl
lock_of-write_state p q now (some r) db = refl

-- The tables after the `finally` block.
abbrev pub closed : (d : Dag) → TaskEnv → d.Config → String → AuditDb → AuditDb
closed d e config run_id after =
    (finalize_pipeline_state e.finished (d.pipeline_id config)
      (release_pipeline_lock e.formats (d.pipeline_id config) run_id after).1).1

-- What the end of a run returns, by the outcome of its block under `try`.
abbrev pub outcome_of : Result (Unit {0}) → Result Dict
outcome_of (ok x) = ok finalized
outcome_of (raised x) = raised x

module _ (d : Dag) (e : TaskEnv) (config : d.Config) (run_context : Option Dict) (run_id : String)
    (u : ℕ) (named : run_id_of e.host run_context ≡ ok run_id)
    (parsed : parse_run_id e.formats run_id ≡ ok u) where
  pub close-returns :
      (after : AuditDb)
      → close d e config run_context after ≡ (ok tt, closed d e config run_id after)
  unfolding close finalize_pipeline_state
  close-returns after =
      rw (named, release-returns e.formats (d.pipeline_id config) run_id u after parsed) refl

  -- The run's lock is gone after the `finally` block.
  pub closed-IsNotHeldBy :
      (after : AuditDb)
      → IsNotHeldBy u (lock_of (d.pipeline_id config) (closed d e config run_id after))
  unfolding finalize_pipeline_state
  closed-IsNotHeldBy after =
      rw
        (lock_of-write_state (d.pipeline_id config) (d.pipeline_id config) e.finished
          (latest_run (d.pipeline_id config)
            (release_pipeline_lock e.formats (d.pipeline_id config) run_id after).1.run_audit)
          (release_pipeline_lock e.formats (d.pipeline_id config) run_id after).1)
        (release_lem e.formats (d.pipeline_id config) run_id u after parsed)

  pub closing-eq :
      (body : Action (Unit {0})) (db after : AuditDb) (r : Result (Unit {0}))
      → body db ≡ (r, after)
      → closing d e config run_context body db ≡ (outcome_of r, closed d e config run_id after)
  unfolding closing
  closing-eq body db after (ok x) h = rw (h, close-returns after) refl
  closing-eq body db after (raised x) h = rw (h, close-returns after) refl

  pub closing-tables :
      (body : Action (Unit {0})) (db : AuditDb)
      → (closing d e config run_context body db).1 ≡ closed d e config run_id (body db).1
  closing-tables body db =
      ap (λ (x : Result Dict × AuditDb). x.1) (closing-eq body db (body db).1 (body db).0 refl)
