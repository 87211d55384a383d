-- ===== src/Db.antt =====
-- ingestion_airflow/db: the audit tables and the operations of db/audit.py on them. A call is one
-- transaction: it maps the tables to the tables that it commits, or raises and leaves them.
mod Tests
pub mod Table
pub mod Tables
pub mod Locks
pub mod Keys
pub mod Stages
pub mod Checkpoints
pub mod Runs
pub mod ValidationErrors
