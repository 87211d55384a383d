-- ===== src/Runtime/ObjectStore.antt =====
-- `build_object_store_config` of ingestion_airflow/runtime.py.
use ingestion_airflow.Common.{String, Bool, not, ◌&&◌, ◌||◌, Option, none, some, if◌then◌else◌}
use ingestion_airflow.Py.Exc.{value_error, Result, ok, raise, ◌>>=◌}
use ingestion_airflow.Py.Int.{ℤ, is_not_positive, int_of_text}
use ingestion_airflow.Py.Value.{Host}
use ingestion_airflow.Config.Parse.{LandingConfig, or_none}
use ingestion_airflow.Runtime.Env.{env_or, env_text, is_empty, OidcClientCredentialsConfig}

-- ingestion_core.adapters.oidc_sts.WebIdentitySTSConfig
pub record WebIdentityStsConfig : Type 0 where
  pub endpoint_url : String
  pub duration_seconds : ℤ
  pub verify_ssl : Bool

-- The credentials that `exchange_client_credentials_for_sts` of ingestion_core returns.
pub record Credentials : Type 0 where
  pub access_key_id : String
  pub secret_access_key : String
  pub session_token : Option String

-- ingestion_core.adapters.object_store.ObjectStoreConfig
pub record ObjectStoreConfig : Type 0 where
  pub bucket : String
  pub prefix : String
  pub endpoint_url : Option String
  pub region_name : Option String
  pub verify_ssl : Bool
  pub credentials : Credentials

abbrev pub at_landing : LandingConfig → Credentials → ObjectStoreConfig
at_landing landing credentials = record {
  bucket = landing.0;
  prefix = landing.1;
  endpoint_url = landing.2;
  region_name = landing.3;
  verify_ssl = landing.4;
  credentials = credentials;
}

abbrev pub duration_or_raise : Option ℤ → Result ℤ
duration_or_raise none = raise value_error "MINIO_STS_DURATION_SECONDS must be an integer"
duration_or_raise (some z) =
    if is_not_positive z
    then raise value_error "MINIO_STS_DURATION_SECONDS must be greater than zero"
    else ok z

unfoldable pub sts_duration : Host → Result ℤ
sts_duration host =
    duration_or_raise
      (int_of_text host.wide_digit (env_or host "MINIO_STS_DURATION_SECONDS" "3600"))

-- `os.getenv(…) or None` for the two AWS keys, refused where one is missing or empty
unfoldable pub static_credentials : Host → Result Credentials
static_credentials host =
    let access_key_id = env_or host "AWS_ACCESS_KEY_ID" "" in
    let secret_access_key = env_or host "AWS_SECRET_ACCESS_KEY" "" in
    if is_empty access_key_id || is_empty secret_access_key
    then raise value_error
        "Object store credentials are not configured. Set KEYCLOAK_TOKEN_URL/KEYCLOAK_CLIENT_ID/KEYCLOAK_CLIENT_SECRET/MINIO_STS_ENDPOINT for STS flow or provide AWS_ACCESS_KEY_ID/AWS_SECRET_ACCESS_KEY."
    else ok (record {
      access_key_id = access_key_id;
      secret_access_key = secret_access_key;
      session_token = or_none (env_or host "AWS_SESSION_TOKEN" "");
    })

-- All four settings of the STS flow are there.
abbrev pub has_sts : Host → Bool
has_sts host =
    not (is_empty (env_text host "KEYCLOAK_TOKEN_URL"))
    && not (is_empty (env_text host "KEYCLOAK_CLIENT_ID"))
    && not (is_empty (env_or host "KEYCLOAK_CLIENT_SECRET" ""))
    && not (is_empty (env_text host "MINIO_STS_ENDPOINT"))

-- What `exchange_client_credentials_for_sts` of ingestion_core does with the two configurations.
abbrev pub Exchange : Type 0
Exchange = OidcClientCredentialsConfig → WebIdentityStsConfig → Result Credentials

unfoldable pub sts_credentials : Host → Exchange → LandingConfig → Result Credentials
sts_credentials host exchange landing = do
  duration_seconds ← sts_duration host
  exchange
      (record {
        token_url = env_text host "KEYCLOAK_TOKEN_URL";
        client_id = env_text host "KEYCLOAK_CLIENT_ID";
        client_secret = env_or host "KEYCLOAK_CLIENT_SECRET" "";
        verify_ssl = none;
        scope = none;
      })
      (record {
        endpoint_url = env_text host "MINIO_STS_ENDPOINT";
        duration_seconds = duration_seconds;
        verify_ssl = landing.4;
      })

unfoldable pub build_object_store_config :
    Host → Exchange → LandingConfig → Result ObjectStoreConfig
build_object_store_config host exchange landing = do
  credentials ←
      (if has_sts host then sts_credentials host exchange landing else static_credentials host)
  ok (at_landing landing credentials)
