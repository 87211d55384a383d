-- ===== src/Keycloak.antt =====
-- ingestion_airflow/keycloak_fab_oauth.py: OAuth settings, token claims, roles and user info.
mod Tests
pub mod Settings
pub mod Claims
pub mod Roles
