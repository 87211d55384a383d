-- ===== src/Dags.antt =====
-- The DAGs of dags/: what their tasks have in common around the stages, at the start and at the end of a
-- run, and the tasks of each.
mod Tests
pub mod Samples
pub mod Core
pub mod Graph
pub mod Hashdiff
pub mod IncrementalAudit
pub mod LogicalCdc
pub mod Replay
pub mod Stage
pub mod Start
pub mod Finalize
pub mod Locked
pub mod Locks
pub mod Outcome
pub mod Inversion
use ingestion_airflow.Common.{ℕ, String, Bool, true, false, Option, none, some, [], ◌∷◌}
use ingestion_airflow.Py.Exc.{
  Kind, value_error, type_error, key_error, overflow_error, runtime_error, attribute_error,
  airflow_fail, foreign, Exception, Result, ok, raised,
}
use ingestion_airflow.Py.Value.{Host, Value, text}
use ingestion_airflow.Py.Dict.{Dict, update}
use ingestion_airflow.Config.Parse.{LandingConfig}
use ingestion_airflow.Runtime.ObjectStore.{ObjectStoreConfig, Exchange, build_object_store_config}
use ingestion_airflow.Runtime.Client.{ObjectStoreClient}
use ingestion_airflow.Observability.{build_application_name}
use ingestion_airflow.Observability.Numbers.{Floats}
use ingestion_airflow.Observability.Enrich.{
  Urllib, Scope, enrich_metrics_payload, with_application_name,
}
use ingestion_airflow.ValidationErrorAudit.{Reader}
use ingestion_airflow.Db.Tables.{AuditDb, Formats, Action}

-- What tells the six DAGs apart around their stages. `explain` is what a failed stage adds from the
-- attributes of the exception, and `held_message` the text for a pipeline whose lock is held.
pub record Dag : Type 1 where
  pub Config : Type 0
  pub from_dagrun_conf : Host → Dict → Result Config
  pub pipeline_id : Config → String
  pub landing_of : Config → LandingConfig
  pub strategy : String
  pub run_mode : String
  pub explain : Host → Dict → Dict
  pub held_message : String → String

-- What a task finds around it: the interpreter, `dag_run.conf`, what ingestion_core and SQLAlchemy
-- give, the attributes of an exception, and the UUIDs of new rows. The times are those of the first and of the last call
-- to the audit database.
pub record TaskEnv : Type 0 where
  pub host : Host
  pub conf : Dict
  pub exchange : Exchange
  pub formats : Formats
  pub floats : Floats
  pub client : ObjectStoreClient
  pub urllib : Urllib
  pub reader : ObjectStoreConfig → Reader
  pub attributes : Exception → Dict
  pub fresh : ℕ → ℕ
  pub started : ℕ
  pub finished : ℕ

abbrev pub and_then {ℓ κ} :
    {A : Type ℓ} {B : Type κ} → Result A × AuditDb → (A → Action B) → Result B × AuditDb
and_then (ok a, db) f = f a db
and_then (raised e, db) f = (raised e, db)

-- A call that may raise and has nothing to do with the tables.
abbrev pub lift {ℓ} : {A : Type ℓ} → Result A → Action A
lift r db = (r, db)

-- `try: … except Exception as exc: …`; what the block has committed stays.
abbrev pub except {ℓ} :
    {A : Type ℓ} → Result A × AuditDb → (Exception → Action A) → Result A × AuditDb
except (ok a, db) h = (ok a, db)
except (raised e, db) h = h e db

-- `try: … finally: …`; an exception of the `finally` block takes the place of any before it.
abbrev pub finally {ℓ} : {A : Type ℓ} → Result A × AuditDb → Action (Unit {0}) → Result A × AuditDb
finally (r, db) h = and_then (h db) λ _ db. (r, db)

abbrev pub enrich : TaskEnv → Option ObjectStoreConfig → Scope → Dict → Result Dict
enrich e store scope payload = enrich_metrics_payload e.host e.floats e.client store scope payload

abbrev pub scope_of : (d : Dag) → d.Config → String → Option String → Scope
scope_of d config run_id stage_name = record {
  strategy = d.strategy;
  run_mode = d.run_mode;
  pipeline_id = d.pipeline_id config;
  run_id = run_id;
  stage_name = stage_name;
}

abbrev pub load_run_config : (d : Dag) → TaskEnv → Result d.Config
load_run_config d e = d.from_dagrun_conf e.host e.conf

abbrev pub store_of : (d : Dag) → TaskEnv → d.Config → Result ObjectStoreConfig
store_of d e config = build_object_store_config e.host e.exchange (d.landing_of config)

abbrev pub some_config : Result ObjectStoreConfig → Result (Option ObjectStoreConfig)
some_config (ok c) = ok (some c)
some_config (raised x) = raised x

-- `build_object_store_config(config) if has_artifact_keys(result) else None`
abbrev pub store_if : Bool → (d : Dag) → TaskEnv → d.Config → Result (Option ObjectStoreConfig)
store_if true d e config = some_config (store_of d e config)
store_if false d e config = ok none

abbrev pub class_name : Kind → String
class_name value_error = "ValueError"
class_name type_error = "TypeError"
class_name key_error = "KeyError"
class_name overflow_error = "OverflowError"
class_name runtime_error = "RuntimeError"
class_name attribute_error = "AttributeError"
class_name airflow_fail = "AirflowFailException"
class_name (foreign name) = name

abbrev pub failure_payload : Dag → TaskEnv → Exception → Dict
failure_payload d e exc =
    update
      (("status", text "failed")
        ∷ ("exception_class", text (class_name exc.kind))
        ∷ ("error_message", text exc.message)
        ∷ [])
      (d.explain e.host (e.attributes exc))

-- `with_application_name(dsn, build_application_name(…))`
abbrev pub named_dsn : Dag → TaskEnv → String → String → String → String
named_dsn d e dsn stage_name role =
    with_application_name e.urllib dsn
      (build_application_name d.strategy d.run_mode stage_name role)
