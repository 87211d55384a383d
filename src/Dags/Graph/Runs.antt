-- ===== src/Dags/Graph/Runs.antt =====
-- What a whole run of a DAG leaves of the lock of its pipeline.
use ingestion_airflow.Common.{ℕ, String, ◌≡◌, refl, ap, Option, none, some, ◌∷◌}
use ingestion_airflow.Py.Exc.{Result, ok, raised, ◌>>=◌}
use ingestion_airflow.Py.Value.{Host, text, str}
use ingestion_airflow.Py.Dict.{DictOf, Dict, lookup, subscript}
use ingestion_airflow.Config.Steps.{subscript_text}
use ingestion_airflow.Db.Tables.{AuditDb, Action, parse_run_id}
use ingestion_airflow.Db.Locks.Holding.{lock_of, IsNotHeldBy}
use ingestion_airflow.Dags.{Dag, TaskEnv, load_run_config}
use ingestion_airflow.Dags.Start.{StartTask}
use ingestion_airflow.Dags.Finalize.{
  Xcom, FinalizeTask, FinalizeReplayTask, run_id_of, finish_replay, finalize_run, finalize_replay,
}
use ingestion_airflow.Dags.Finalize.Ends.{finalize_run_releases, finalize_replay_releases}
use ingestion_airflow.Dags.Graph.{returned, task, task_of, task_of_two, xcom_of, run_tasks}
use ingestion_airflow.Dags.Graph.Starts.{Ends}

module _ (d : Dag) (fin : TaskEnv) (config : d.Config) (run_id : String) (fresh : ℕ) where
  -- The start of a run has returned a context that names the run, or the run is without the lock.
  abbrev pub HasStarted : Option Dict × AuditDb → Type 0
  HasStarted (some context, db) = run_id_of fin.host (some context) ≡ ok run_id
  HasStarted (none, db) = IsNotHeldBy fresh (lock_of (d.pipeline_id config) db)

  -- Tasks that take the context of the run do nothing without it.
  abbrev pub AreIdle : (Option Dict → AuditDb → DictOf (Option Dict) × AuditDb) → Type 0
  AreIdle stages = (db : AuditDb) → (stages none db).1 ≡ db

  module _ (loaded : load_run_config d fin ≡ ok config)
      (parsed : parse_run_id fin.formats run_id ≡ ok fresh)
      (stages : Option Dict → AuditDb → DictOf (Option Dict) × AuditDb)
      (idle : AreIdle stages) where
    unstarted :
        (f : FinalizeTask) (xcom : Xcom) (db : AuditDb) → (finalize_run d f fin none xcom db).1 ≡ db
    unfolding finalize_run
    unstarted f xcom db = rw loaded refl

    ends :
        (f : FinalizeTask) (o : Option Dict) (db : AuditDb)
        → HasStarted (o, db)
        → IsNotHeldBy fresh (
            lock_of
              (d.pipeline_id config)
              (finalize_run d f fin o (xcom_of (stages o db).0) (stages o db).1).1)
    ends f none db clean =
        rw (unstarted f (xcom_of (stages none db).0) (stages none db).1, idle db) clean
    ends f (some context) db named =
        finalize_run_releases d f fin config (some context) run_id fresh _ _ loaded named parsed

    pub run_tasks-IsNotHeldBy :
        (f : FinalizeTask) (start : AuditDb → Option Dict × AuditDb) (db : AuditDb)
        → HasStarted (start db)
        → IsNotHeldBy fresh
            (lock_of (d.pipeline_id config) (run_tasks start stages (finalize_run d f fin) db).1)
    run_tasks-IsNotHeldBy f start db h = ends f (start db).0 (start db).1 h

    unstarted_replay :
        (f : FinalizeReplayTask) (xcom : Xcom) (db : AuditDb)
        → (finalize_replay d f fin none xcom db).1 ≡ db
    unfolding finalize_replay finish_replay
    unstarted_replay f xcom db = rw loaded refl

    replay_ends :
        (f : FinalizeReplayTask) (o : Option Dict) (db : AuditDb)
        → HasStarted (o, db)
        → IsNotHeldBy fresh (
            lock_of
              (d.pipeline_id config)
              (finalize_replay d f fin o (xcom_of (stages o db).0) (stages o db).1).1)
    replay_ends f none db clean =
        rw (unstarted_replay f (xcom_of (stages none db).0) (stages none db).1, idle db) clean
    replay_ends f (some context) db named =
        finalize_replay_releases d f fin config (some context) run_id fresh _ _ loaded named parsed

    pub run_replay-IsNotHeldBy :
        (f : FinalizeReplayTask) (start : AuditDb → Option Dict × AuditDb) (db : AuditDb)
        → HasStarted (start db)
        → IsNotHeldBy fresh
            (lock_of (d.pipeline_id config) (run_tasks start stages (finalize_replay d f fin) db).1)
    run_replay-IsNotHeldBy f start db h = replay_ends f (start db).0 (start db).1 h

module _ (d : Dag) (s : StartTask d) (e fin : TaskEnv) (fresh locked_at now : ℕ) (config : d.Config)
    (carries : (context : Dict)
      → s.build_context config (e.formats.show_uuid fresh) ≡ ok context
      → run_id_of fin.host (some context) ≡ ok (e.formats.show_uuid fresh)) where
  -- What `Ends` gives the rest of the run.
  pub Ends-HasStarted :
      (result : Result Dict × AuditDb)
      → Ends d s e fresh locked_at now config result
      → HasStarted d fin config (e.formats.show_uuid fresh) fresh (returned result.0, result.1)
  Ends-HasStarted (ok context, db) built = carries context built
  Ends-HasStarted (raised x, db) clean = clean

module _ (d : Dag) (fin : TaskEnv) (config : d.Config) (run_id : String) (fresh : ℕ) where
  pub task_of-HasStarted :
      (o : Option Dict) (run : Dict → Action Dict) (db : AuditDb)
      → IsNotHeldBy fresh (lock_of (d.pipeline_id config) db)
      → ((a : Dict) → o ≡ some a → HasStarted d fin config run_id fresh (task (run a) db))
      → HasStarted d fin config run_id fresh (task_of o run db)
  task_of-HasStarted none run db clean h = clean
  task_of-HasStarted (some a) run db clean h = h a refl

  pub task_of_two-HasStarted :
      (o p : Option Dict) (run : Dict → Dict → Action Dict) (db : AuditDb)
      → IsNotHeldBy fresh (lock_of (d.pipeline_id config) db)
      → ((a b : Dict) → p ≡ some b → HasStarted d fin config run_id fresh (task (run a b) db))
      → HasStarted d fin config run_id fresh (task_of_two o p run db)
  task_of_two-HasStarted none p run db clean h = clean
  task_of_two-HasStarted (some a) p run db clean h = task_of-HasStarted p (run a) db clean (h a)

-- A context begins with the id of the run.
pub carried :
    (host : Host) (run_id : String) (rest context : Dict)
    → ("run_id", text run_id) ∷ rest ≡ context
    → run_id_of host (some context) ≡ ok run_id
unfolding subscript_text subscript lookup str
carried host run_id rest context h = rw (← h) refl

-- The same where a call that may raise stands before it.
pub carried_bind :
    {A : Type 0} (host : Host) (run_id : String) (r : Result A) (rest : A → Dict) (context : Dict)
    → (do a ← r; ok (("run_id", text run_id) ∷ rest a)) ≡ ok context
    → run_id_of host (some context) ≡ ok run_id
carried_bind host run_id (ok a) rest context h =
    let same : ("run_id", text run_id) ∷ rest a ≡ context = cc in
    carried host run_id (rest a) context same
carried_bind host run_id (raised x) rest context h = absurd cc

pub returned-some : (r : Result Dict) (a : Dict) → returned r ≡ some a → r ≡ ok a
returned-some (ok b) a h = let same : b ≡ a = cc in ap ok same
returned-some (raised x) a h = absurd cc
