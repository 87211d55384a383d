-- ===== src/Lib.antt =====
-- Verification library of ingestion-airflow: the parts of the Airflow side of a contract-driven
-- ingestion that carry its own logic, as functions of explicit inputs and of the audit tables.
--
-- How the program fits together. A DAG run reads its configuration from `dag_run.conf` and the
-- environment, records the run in the audit database, takes the lock of its pipeline, records each
-- stage, and at the end writes the state of the pipeline. The stages themselves are calls of the
-- package ingestion_core, with credentials and object keys that the runtime helpers give them.
--
-- Py: what Python's built-ins do where the code relies on them. Exc has exceptions as values, Value
--   the values that `json` decodes with `bool`, `str` and `int`, Int integers and their texts, Text
--   and Text/Strip strings, Dict dictionaries as ordered association lists.
-- Config: ingestion_airflow/config.py. Parse has the module's helpers, Parse/Fields, Parse/Texts,
--   Parse/Ints and Parse/Flags what they return, Steps the statements that the methods have in common. Ingestion,
--   Replay, IncrementalAudit, IncrementalAuditReplay, LogicalCdc and LogicalCdcReplay have one class
--   each with its `from_dagrun_conf`, and X/Valid describes the configurations that X returns.
-- Db: ingestion_airflow/db/audit_tables.py (Tables) and ingestion_airflow/db/audit.py (Locks, Stages,
--   Checkpoints, Runs, ValidationErrors). Table has the SQL statements that these use, on lists of rows:
--   select by key, insert with `ON CONFLICT DO UPDATE`, update and delete.
--   Keys has the primary keys of the tables, with Table/Keyed, and Locks/Refines relates the table
--   of locks to a map from a pipeline to its lock.
-- Runtime: ingestion_airflow/runtime.py (Env, ObjectStore, Artifacts) and
--   ingestion_airflow/task_runtime.py (Tasks). Sources is about the credentials of the object store.
-- Keycloak: ingestion_airflow/keycloak_fab_oauth.py (Settings, Claims). Roles is about the roles of a user.
-- ValidationErrorAudit: ingestion_airflow/validation_error_audit.py. Ingest and Contents are about the
--   artifact that is read.
-- Observability: ingestion_airflow/observability.py. The file itself has the text helpers, Numbers the counts
--   and rates, Enrich `enrich_metrics_payload` with what it calls and `with_application_name`.
-- Dags: dags/. The six DAGs have one shape, so that what they share is a function of a record with what tells
--   them apart: `Dag` and `TaskEnv` in the file itself, `_execute_stage` in Stage, `start_run` and
--   `start_replay_run` in Start, `finalize_run` and `finalize_replay` in Finalize, the contract and
--   the checkpoint in Core. Hashdiff, IncrementalAudit and LogicalCdc have the tasks of dags/ingest_contract_*.py,
--   and Replay/Hashdiff, Replay/IncrementalAudit and Replay/LogicalCdc those of
--   dags/replay_contract_*_from_minio.py, with the resolution of a replay's input in Replay/Manifest
--   and Replay/Delta. X/Run has the start, the end and the whole of a run of a DAG; Graph says when a
--   task runs. Outcome, Locked, Locks, Finalize/Releases, Finalize/Ends, Graph/Starts, Graph/Runs,
--   Replay/Delta/Resolves, Replay/Manifest/Agrees and LogicalCdc/Acknowledged are about these; Inversion
--   has the lemmas that say from which steps a result came.
-- Migrations: ingestion_airflow/db/migrations.py; the commands of alembic are parameters.
-- Samples and the Tests modules have sample inputs and runs on them.
--
-- What is a parameter. `Host` has the environment, `repr` and the decimal digits beyond ASCII; `Formats`
-- has the texts of UUIDs and of times, with the law that the text of a UUID is read back; `Exchange`
-- is the STS exchange of ingestion_core, `Decode` the check of a token, `Reader` the making of the
-- object store client, what it reads, and `json.loads`, `ObjectStoreClient` that client's other methods, `Floats` the arithmetic of doubles,
-- `Urllib` the functions of urllib.parse, `Registry` the contract registry, and `Snapshots`, `Deltas`
-- and `WalDeltas` are the three strategies of ingestion_core. A clock is an argument of each operation that reads it, as is what
-- `uuid.uuid4` gives.
--
-- Bounds. A time is a number of microseconds. `int(text)` refuses more than 4300 digits, as the
-- interpreter does by default, and the decimal text of n is computed on fuel above n, which is enough
-- because each digit divides n by ten. An operation of Db is one transaction that commits, or raises
-- and leaves the tables as they are.
--
-- What is not modelled: a database that fails or refuses a value (the range of INTEGER columns, NUL
-- bytes in texts), logging, the cache of the Keycloak settings, the DDL that the migrations run,
-- and Airflow itself: its scheduler, retries and cleared tasks. A task of a DAG runs once the tasks whose results
-- it takes have returned, and the last task of a DAG in any case.
pub mod Common
pub mod Py
pub mod Samples
pub mod Config
pub mod Db
pub mod Runtime
pub mod Keycloak
pub mod ValidationErrorAudit
pub mod Migrations
pub mod Observability
pub mod Dags
