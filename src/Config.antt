-- ===== src/Config.antt =====
-- ingestion_airflow/config.py: a DAG run's configuration, read from `dag_run.conf` and the environment.
pub mod Tests
pub mod Parse
pub mod Steps
pub mod Ingestion
pub mod Replay
pub mod IncrementalAudit
pub mod IncrementalAuditReplay
pub mod LogicalCdc
pub mod LogicalCdcReplay
