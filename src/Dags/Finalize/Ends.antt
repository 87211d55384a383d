-- ===== src/Dags/Finalize/Ends.antt =====
-- How `finalize_run` and `finalize_replay` end: the lock is released, and a run is only reported done
-- where all of its tasks have left a result.
use ingestion_airflow.Common.{ℕ, String, ◌≡◌, ◌≢◌, refl, ap, Option, none, List, [], ◌∷◌, All}
use ingestion_airflow.Py.Exc.{Exception, Result, ok, raised}
use ingestion_airflow.Py.Text.{concat, join}
use ingestion_airflow.Py.Dict.{Dict}
use ingestion_airflow.Runtime.Tasks.{HasReturned, missing_tasks-eq-nil_iff}
use ingestion_airflow.Db.Table.{first_where}
use ingestion_airflow.Db.Tables.{AuditDb, Action, parse_run_id}
use ingestion_airflow.Db.Locks.Holding.{lock_of, IsNotHeldBy}
use ingestion_airflow.Db.Stages.{is_stage, record_of, read_stage_audit_record}
use ingestion_airflow.Dags.{Dag, TaskEnv, and_then, load_run_config}
use ingestion_airflow.Dags.Finalize.{
  counts_of, Xcom, FinalizeTask, FinalizeReplayTask, value_of, failed_tasks_of, result_of,
  run_id_of, extract_payload, closing, finish_ingest, finish_replay, finish_failed, finalize_run,
  finalize_replay, persist_errors, failure_of,
}
use ingestion_airflow.Dags.Finalize.Releases.{closed-IsNotHeldBy, closing-eq, closing-tables}

and_then_raised :
    (m : Result (Unit {0}) × AuditDb) (k : Unit {0} → Action (Unit {0}))
    → ((db : AuditDb) → (r : Exception) × ((k tt db).0 ≡ raised r))
    → (r : Exception) × ((and_then m k).0 ≡ raised r)
and_then_raised (ok tt, db) k h = h db
and_then_raised (raised y, db) k h = (y, refl)

module _ (d : Dag) (f : FinalizeTask) (e : TaskEnv) (config : d.Config) (run_context : Option Dict)
    (run_id : String) (u : ℕ) (xcom : Xcom) (db : AuditDb)
    (loaded : load_run_config d e ≡ ok config) (named : run_id_of e.host run_context ≡ ok run_id)
    (parsed : parse_run_id e.formats run_id ≡ ok u) where
  -- What the task that extracts returned, or its stage recorded.
  abbrev pub extracted : Dict
  extracted =
      extract_payload (result_of (xcom f.extract_stage))
        (record_of (first_where (is_stage u f.extract_stage) db.stage_audit))

  abbrev pub run_body : Action (Unit {0})
  run_body =
      finish_ingest d f e config run_id (failed_tasks_of xcom f.task_ids) extracted
        (result_of (xcom f.extract_stage)) (result_of (xcom f.apply_task))
        (result_of (xcom "persist_checkpoint_task"))

  pub finalize_run-eq :
      finalize_run d f e run_context xcom db ≡ closing d e config run_context run_body db
  unfolding finalize_run read_stage_audit_record closing
  finalize_run-eq = rw (loaded, named, parsed) refl

  -- Once `finalize_run` knows its configuration and its run, it leaves the pipeline's lock out of the run's
  -- hands, whatever the tasks did and whatever its own records raise.
  pub finalize_run_releases :
      IsNotHeldBy u (lock_of (d.pipeline_id config) (finalize_run d f e run_context xcom db).1)
  finalize_run_releases =
      rw (finalize_run-eq, closing-tables d e config run_context run_id u named parsed run_body db)
        (closed-IsNotHeldBy d e config run_context run_id u named parsed (run_body db).1)

module _ (d : Dag) (f : FinalizeReplayTask) (e : TaskEnv) (config : d.Config)
    (run_context : Option Dict) (run_id : String) (u : ℕ) (xcom : Xcom) (db : AuditDb)
    (loaded : load_run_config d e ≡ ok config) (named : run_id_of e.host run_context ≡ ok run_id)
    (parsed : parse_run_id e.formats run_id ≡ ok u) where
  abbrev replay_body : Action (Unit {0})
  replay_body =
      finish_replay d f e config run_context (failed_tasks_of xcom (f.task_id ∷ []))
        (result_of (xcom f.task_id))

  finalize_replay-eq :
      finalize_replay d f e run_context xcom db ≡ closing d e config run_context replay_body db
  unfolding finalize_replay closing
  finalize_replay-eq = rw loaded refl

  -- The same of `finalize_replay`: once it knows its configuration and its run, it leaves the pipeline's lock
  -- out of the run's hands, whatever the replay did and whatever its own records raise.
  pub finalize_replay_releases :
      IsNotHeldBy u (lock_of (d.pipeline_id config) (finalize_replay d f e run_context xcom db).1)
  finalize_replay_releases =
      rw
        (
          finalize_replay-eq,
          closing-tables d e config run_context run_id u named parsed replay_body db,
        )
        (closed-IsNotHeldBy d e config run_context run_id u named parsed (replay_body db).1)

fail : List String → Unit {0} → Action (Unit {0})
fail ts _ db = (raised (failure_of "Pipeline failed at tasks: " ts), db)

-- A block that has tasks that failed raises.
failed_raises :
    (d : Dag) (f : FinalizeTask) (e : TaskEnv) (config : d.Config) (run_id t : String)
    (ts : List String) (extract delta applied checkpoint : Dict) (db : AuditDb)
    → (r : Exception) × ((finish_ingest d f e config run_id
          (t ∷ ts)
          extract
          delta
          applied
          checkpoint
          db).0
        ≡ raised r)
unfolding finish_ingest fail
failed_raises d f e config run_id t ts extract delta applied checkpoint db =
    and_then_raised
      (finish_failed d e config run_id
        (counts_of e.host (f.failed_read_count e.host extract) applied)
        (f.failed_payload (t ∷ ts) extract checkpoint)
        (concat ("Pipeline failed at stages: " ∷ join ", " (t ∷ ts) ∷ [])) db)
      (λ _ db.
        and_then (persist_errors d e config run_id f.extract_stage extract db) (fail (t ∷ ts)))
      (λ after.
        and_then_raised (persist_errors d e config run_id f.extract_stage extract after)
          (fail (t ∷ ts)) (λ last. (failure_of "Pipeline failed at tasks: " (t ∷ ts), refl)))

value-All :
    (xcom : Xcom) (ts : List String)
    → All (HasReturned (λ t. value_of (xcom t))) ts
    → All (λ t. xcom t ≢ none) ts
value-All xcom [] h = tt
value-All xcom (t ∷ ts) h = ((λ k. let (v, q) = h.0 in cc (rw k at q)), value-All xcom ts h.1)

returned-All :
    (xcom : Xcom) (ts : List String) → failed_tasks_of xcom ts ≡ [] → All (λ t. xcom t ≢ none) ts
unfolding failed_tasks_of
returned-All xcom ts q =
    value-All xcom ts ((missing_tasks-eq-nil_iff (λ t. value_of (xcom t)) ts).0 q)

module _ (d : Dag) (f : FinalizeTask) (e : TaskEnv) (config : d.Config) (run_context : Option Dict)
    (run_id : String) (u : ℕ) (xcom : Xcom) (db : AuditDb)
    (loaded : load_run_config d e ≡ ok config) (named : run_id_of e.host run_context ≡ ok run_id)
    (parsed : parse_run_id e.formats run_id ≡ ok u) where
  failed-raised :
      (t : String) (ts : List String)
      → failed_tasks_of xcom f.task_ids ≡ t ∷ ts
      → (x : Exception) × ((finalize_run d f e run_context xcom db).0 ≡ raised x)
  failed-raised t ts q =
      let extract : Dict =
        extracted d f e config run_context run_id u xcom db loaded named parsed in
      let delta : Dict = result_of (xcom f.extract_stage) in
      let applied : Dict = result_of (xcom f.apply_task) in
      let checkpoint : Dict = result_of (xcom "persist_checkpoint_task") in
      let body : Action (Unit {0}) =
        run_body d f e config run_context run_id u xcom db loaded named parsed in
      let (x, h) = failed_raises d f e config run_id t ts extract delta applied checkpoint db in
      let h' : (body db).0 ≡ raised x = rw q h in
      (
        x,
        rw (finalize_run-eq d f e config run_context run_id u xcom db loaded named parsed) (
            ap (λ (o : Result Dict × AuditDb). o.0)
              (closing-eq d e config run_context run_id u named parsed body db (body db).1
                (raised x) (λ i. (h' i, (body db).1)))),
      )

  -- `finalize_run` returns only where every task of its list has left a result: else it raises, be the
  -- configuration loaded and the run known.
  pub finalize_run_complete :
      (out : Dict)
      → (finalize_run d f e run_context xcom db).0 ≡ ok out
      → All (λ t. xcom t ≢ none) f.task_ids
  finalize_run_complete out done = go (failed_tasks_of xcom f.task_ids) refl
    where
      go :
          (failed : List String)
          → failed_tasks_of xcom f.task_ids ≡ failed
          → All (λ t. xcom t ≢ none) f.task_ids
      go [] q = returned-All xcom f.task_ids q
      go (t ∷ ts) q = let (x, h) = failed-raised t ts q in absurd (cc)
