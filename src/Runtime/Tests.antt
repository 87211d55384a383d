-- ===== src/Runtime/Tests.antt =====
-- The helpers of ingestion_airflow/runtime.py and task_runtime.py run on samples.
use ingestion_airflow.Common.{
  ◌≡◌, ◌≢◌, refl, ◌↔◌, String, true, false, Option, none, some, [], ◌∷◌, str_eq, All, if◌then◌else◌,
  eq_iff,
}
use ingestion_airflow.Py.Exc.{ok}
use ingestion_airflow.Py.Value.{Value, null}
use ingestion_airflow.Py.Text.Strip.{strip}
use ingestion_airflow.Samples.{sample_host}
use ingestion_airflow.Config.Parse.{LandingConfig}
use ingestion_airflow.Runtime.Artifacts.{
  build_hashdiff_artifacts, build_incremental_audit_artifacts, build_logical_cdc_artifacts,
  artifacts_of_runs_differ,
}
use ingestion_airflow.Runtime.ObjectStore.{
  static_credentials, Exchange, Credentials, at_landing, build_object_store_config,
}
use ingestion_airflow.Runtime.Sources.{IsStoreConfig, object_store_config_iff}
use ingestion_airflow.Runtime.Tasks.{
  get_missing_return_value_tasks, HasReturned, missing_tasks-eq-nil_iff,
}

abbrev sample_landing : LandingConfig
sample_landing = ("landing", "accepted", none, none, true)

abbrev sample_keys : Credentials
sample_keys = record { access_key_id = "key"; secret_access_key = "secret"; session_token = none }

abbrev sample_exchange : Exchange
sample_exchange o w = ok sample_keys

sample_built :
    build_object_store_config sample_host sample_exchange sample_landing
    ≡ ok (at_landing sample_landing sample_keys)
unfolding build_object_store_config strip static_credentials
sample_built = refl

object_store_config_iff_example :
    (build_object_store_config sample_host sample_exchange sample_landing
      ≡ ok (at_landing sample_landing sample_keys))
    ↔ IsStoreConfig sample_host sample_exchange "landing" "accepted" none none true
        (at_landing sample_landing sample_keys)
object_store_config_iff_example =
    object_store_config_iff sample_host sample_exchange "landing" "accepted" none none true
      (at_landing sample_landing sample_keys)

-- The static keys of the sample environment make a configuration, so the description can hold.
sample-IsStoreConfig :
    IsStoreConfig sample_host sample_exchange "landing" "accepted" none none true
      (at_landing sample_landing sample_keys)
sample-IsStoreConfig = object_store_config_iff_example.0 sample_built

abbrev sample_xcom : String → Option Value
sample_xcom t = if str_eq t "extract" then some null else none

missing_tasks-eq-nil_iff_example :
    (get_missing_return_value_tasks sample_xcom ("extract" ∷ []) ≡ [])
    ↔ All (HasReturned sample_xcom) ("extract" ∷ [])
missing_tasks-eq-nil_iff_example = missing_tasks-eq-nil_iff sample_xcom ("extract" ∷ [])

artifacts_of_runs_differ_example :
    ((build_hashdiff_artifacts "sales" "orders" "r1").object_key
      ≢ (build_hashdiff_artifacts "sales" "orders" "r2").object_key)
    × ((build_hashdiff_artifacts "sales" "orders" "r1").validation_error_key
        ≢ (build_hashdiff_artifacts "sales" "orders" "r2").validation_error_key)
    × ((build_hashdiff_artifacts "sales" "orders" "r1").validation_manifest_key
        ≢ (build_hashdiff_artifacts "sales" "orders" "r2").validation_manifest_key)
    × ((build_incremental_audit_artifacts "sales" "orders" "r1").object_key
        ≢ (build_incremental_audit_artifacts "sales" "orders" "r2").object_key)
    × ((build_incremental_audit_artifacts "sales" "orders" "r1").validation_error_key
        ≢ (build_incremental_audit_artifacts "sales" "orders" "r2").validation_error_key)
    × ((build_incremental_audit_artifacts "sales" "orders" "r1").validation_manifest_key
        ≢ (build_incremental_audit_artifacts "sales" "orders" "r2").validation_manifest_key)
    × ((build_logical_cdc_artifacts "sales" "orders" "r1").object_key
        ≢ (build_logical_cdc_artifacts "sales" "orders" "r2").object_key)
    × ((build_logical_cdc_artifacts "sales" "orders" "r1").validation_error_key
        ≢ (build_logical_cdc_artifacts "sales" "orders" "r2").validation_error_key)
    × ((build_logical_cdc_artifacts "sales" "orders" "r1").validation_manifest_key
        ≢ (build_logical_cdc_artifacts "sales" "orders" "r2").validation_manifest_key)
artifacts_of_runs_differ_example =
    artifacts_of_runs_differ "sales" "orders" "r1" "r2"
      (λ h. let k : false ≡ true = (eq_iff "r1" "r2").1 h in cc)
