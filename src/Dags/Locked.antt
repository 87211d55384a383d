-- ===== src/Dags/Locked.antt =====
-- The start of a run while another run has the lock of the pipeline.
use ingestion_airflow.Common.{
  ℕ, ◌<◌, ◌≡◌, refl, inl, inr, Bool, true, none, some, List, [], ◌∷◌, ◌++◌, arith, Bool-cases,
}
use ingestion_airflow.Py.Exc.{ok, raised}
use ingestion_airflow.Py.Int.{pos}
use ingestion_airflow.Py.Dict.{Dict}
use ingestion_airflow.Db.Table.{first_where, first_where-update}
use ingestion_airflow.Db.Tables.{PipelineLock, RunAudit, AuditDb, parse_run_id}
use ingestion_airflow.Db.Locks.{default_ttl_seconds}
use ingestion_airflow.Db.Locks.Holding.{lock_of, acquire_refused}
use ingestion_airflow.Db.Runs.{is_run, new_run, finish_run, start_run_audit, finish_run_audit}
use ingestion_airflow.Dags.{Dag, TaskEnv, load_run_config}
use ingestion_airflow.Dags.Start.{
  StartTask, contract_text, no_counts, start_failure, fail_start, lock_is_held, start_run,
}

first_where-append :
    (p : RunAudit → Bool) (x : RunAudit) (rows : List RunAudit)
    → first_where p rows ≡ none
    → p x ≡ true
    → first_where p (rows ++ x ∷ []) ≡ some x
unfolding first_where
first_where-append p x [] h k = rw k
first_where-append p x (r ∷ rows) h k = elim (Bool-cases (p r)) [
  | inl e ↦ absurd (cc (rw e at h))
  | inr e ↦ rw e (first_where-append p x rows (rw e at h) k)
]

-- The row of the run that is left: a failure, with the reason and nothing counted.
abbrev pub refused_run : (d : Dag) → TaskEnv → d.Config → ℕ → Dict → Dict → RunAudit
refused_run d e config fresh contract_payload payload = record {
  run_id = fresh;
  pipeline_id = d.pipeline_id config;
  strategy = d.strategy;
  run_mode = d.run_mode;
  contract_id = contract_text e.host contract_payload "contract_id" "unknown-contract";
  version = contract_text e.host contract_payload "version" "unknown-version";
  checksum = contract_text e.host contract_payload "checksum" "unknown-checksum";
  started_at = e.started;
  finished_at = some e.finished;
  read_count = pos 0;
  insert_count = pos 0;
  update_count = pos 0;
  delete_count = pos 0;
  unchanged_count = pos 0;
  status = "failed";
  metrics_json = some payload;
  error_text = some (lock_is_held d config).message;
}

-- The row of the run as `start_run` inserts it.
abbrev pub started_run : (d : Dag) → TaskEnv → d.Config → ℕ → Dict → RunAudit
started_run d e config fresh contract_payload =
    new_run fresh e.started (d.pipeline_id config) d.strategy d.run_mode
      (contract_text e.host contract_payload "contract_id" "unknown-contract")
      (contract_text e.host contract_payload "version" "unknown-version")
      (contract_text e.host contract_payload "checksum" "unknown-checksum")

abbrev pub with_run : RunAudit → AuditDb → AuditDb
with_run r db = record db { run_audit = db.run_audit ++ r ∷ [] }

pub shown_parsed :
    (e : TaskEnv) (fresh : ℕ) → parse_run_id e.formats (e.formats.show_uuid fresh) ≡ ok fresh
unfolding parse_run_id
shown_parsed e fresh = rw (e.formats.uuid-show_uuid fresh)

abbrev failed_run : (d : Dag) → TaskEnv → d.Config → Dict → RunAudit → RunAudit
failed_run d e config payload r =
    finish_run e.finished "failed" no_counts (some payload) (some (lock_is_held d config).message) r

module _ (d : Dag) (s : StartTask d) (e : TaskEnv) (fresh locked_at now : ℕ)
    (contract_payload : Dict) (db : AuditDb) (config : d.Config) (r : PipelineLock) (payload : Dict)
    (loaded : load_run_config d e ≡ ok config)
    (unused : first_where (is_run fresh) db.run_audit ≡ none)
    (held : lock_of (d.pipeline_id config) db ≡ some r) (early : now < r.lock_until)
    (enriched : start_failure d s e config (e.formats.show_uuid fresh) ≡ ok payload) where
  started_db : AuditDb
  started_db = with_run (started_run d e config fresh contract_payload) db

  held_then : lock_of (d.pipeline_id config) started_db ≡ some r
  unfolding lock_of started_db
  held_then = held

  refused-eq : start_run d s e fresh locked_at now contract_payload db ≡ (
    raised (lock_is_held d config),
    (finish_run_audit e.formats e.finished
        (e.formats.show_uuid fresh)
        "failed"
        no_counts
        (some payload)
        (some (lock_is_held d config).message)
        started_db).1,
  )
  unfolding start_run start_run_audit fail_start finish_run_audit started_db
  refused-eq =
      rw
        (
          loaded,
          unused,
          acquire_refused e.formats locked_at now (d.pipeline_id config) (e.formats.show_uuid fresh)
              default_ttl_seconds started_db (shown_parsed e fresh) r held_then early,
          enriched,
          shown_parsed e fresh,
        )
        refl

  -- While another run's lock of the pipeline lasts, `start_run` raises, leaves the lock as it is, and has
  -- recorded its own run as failed with the reason: if the configuration loads, the run id is
  -- fresh, and the payload of the failure can be enriched.
  pub start_run_refused :
      ((start_run d s e fresh locked_at now contract_payload db).0 ≡ raised (lock_is_held d config))
      × (lock_of (d.pipeline_id config) (start_run d s e fresh locked_at now contract_payload db).1
          ≡ some r)
      × (first_where
            (is_run fresh)
            (start_run d s e fresh locked_at now contract_payload db).1.run_audit
          ≡ some (refused_run d e config fresh contract_payload payload))
  unfolding lock_of finish_run_audit started_db
  start_run_refused = rw refused-eq (
      rw (shown_parsed e fresh) (
        refl,
        held,
        rw
            (
              first_where-update (is_run fresh) (failed_run d e config payload) (λ x h. h)
                  (db.run_audit ++ started_run d e config fresh contract_payload ∷ []),
              first_where-append (is_run fresh) (started_run d e config fresh contract_payload)
                  db.run_audit unused (ground arith),
            )
            refl,
      ))
