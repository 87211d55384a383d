-- ===== src/Runtime.antt =====
-- ingestion_airflow/runtime.py and ingestion_airflow/task_runtime.py.
mod Tests
pub mod Env
pub mod Client
pub mod Artifacts
pub mod ObjectStore
pub mod Sources
pub mod Tasks
