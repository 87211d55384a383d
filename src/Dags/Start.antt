-- ===== src/Dags/Start.antt =====
-- `start_run` and `start_replay_run`, as the DAGs have them.
use ingestion_airflow.Common.{ℕ, String, Bool, true, false, none, some}
use ingestion_airflow.Py.Exc.{Exception, Result, ok, raised, runtime_error}
use ingestion_airflow.Py.Int.{pos}
use ingestion_airflow.Py.Value.{Host, text, str}
use ingestion_airflow.Py.Dict.{Dict, lookup}
use ingestion_airflow.Config.Parse.{value_or}
use ingestion_airflow.Db.Tables.{AuditDb, Action}
use ingestion_airflow.Db.Locks.{default_ttl_seconds, acquire_pipeline_lock, release_pipeline_lock}
use ingestion_airflow.Db.Runs.{Counts, start_run_audit, finish_run_audit}
use ingestion_airflow.Dags.{
  Dag, TaskEnv, and_then, lift, except, enrich, scope_of, load_run_config, store_if,
}

-- What the DAGs do differently at the start of a run: the context that they return, the payload of a
-- failure, and whether the failure's artifacts are measured.
pub record StartTask (d : Dag) : Type 0 where
  pub build_context : d.Config → String → Result Dict
  pub failure : Dict
  pub with_store : Bool

-- `str(contract_payload.get(field_name, default_value))`
abbrev pub contract_text : Host → Dict → String → String → String
contract_text host contract_payload field_name default_value =
    str host (value_or (lookup field_name contract_payload) (text default_value))

abbrev pub no_counts : Counts
no_counts = record {
  read_count = pos 0;
  insert_count = pos 0;
  update_count = pos 0;
  delete_count = pos 0;
  unchanged_count = pos 0;
}

-- `if lock_acquired: release_pipeline_lock(…)`
abbrev pub release_if : Bool → (d : Dag) → TaskEnv → d.Config → String → Action (Unit {0})
release_if true d e config run_id db =
    release_pipeline_lock e.formats (d.pipeline_id config) run_id db
release_if false d e config run_id db = (ok tt, db)

-- The metrics of a start that failed.
abbrev pub start_failure : (d : Dag) → StartTask d → TaskEnv → d.Config → String → Result Dict
start_failure d s e config run_id = elim (store_if s.with_store d e config) [
  | raised x ↦ raised x
  | ok store ↦ enrich e store (scope_of d config run_id none) s.failure
]

-- The block under `except`.
unfoldable pub fail_start :
    (d : Dag) → StartTask d → TaskEnv → d.Config → String → Bool → Exception → Action Dict
fail_start d s e config run_id lock_acquired exc db =
    and_then (lift (start_failure d s e config run_id) db) λ payload db.
      and_then
        (finish_run_audit e.formats e.finished run_id "failed" no_counts (some payload)
          (some exc.message) db)
        λ _ db. and_then (release_if lock_acquired d e config run_id db) λ _ db. (raised exc, db)

abbrev pub lock_is_held : (d : Dag) → d.Config → Exception
lock_is_held d config = record {
  kind = runtime_error;
  message = d.held_message (d.pipeline_id config);
}

-- What follows the attempt to take the lock, by its outcome.
unfoldable pub after_lock :
    (d : Dag)
    → StartTask d
    → TaskEnv
    → d.Config
    → String
    → Result Bool × AuditDb
    → Result Dict × AuditDb
after_lock d s e config run_id (ok true, db) =
    except (s.build_context config run_id, db) (fail_start d s e config run_id true)
after_lock d s e config run_id (ok false, db) =
    fail_start d s e config run_id false (lock_is_held d config) db
after_lock d s e config run_id (raised exc, db) = fail_start d s e config run_id false exc db

-- `fresh` is what `uuid.uuid4()` gives, `locked_at` and `now` are the clocks of the lock.
unfoldable pub start_run :
    (d : Dag)
    → StartTask d
    → TaskEnv
    → (fresh locked_at now : ℕ) → (contract_payload : Dict) → Action Dict
unfolding after_lock
start_run d s e fresh locked_at now contract_payload db =
    and_then (lift (load_run_config d e) db) λ config db.
      and_then
        (start_run_audit e.formats fresh e.started (d.pipeline_id config) d.strategy d.run_mode
          (contract_text e.host contract_payload "contract_id" "unknown-contract")
          (contract_text e.host contract_payload "version" "unknown-version")
          (contract_text e.host contract_payload "checksum" "unknown-checksum") db)
        λ run_id db. after_lock d s e config run_id (
          acquire_pipeline_lock e.formats locked_at now (d.pipeline_id config) run_id
            default_ttl_seconds db)
