-- ===== src/Keycloak/Settings.antt =====
-- The OAuth settings of ingestion_airflow/keycloak_fab_oauth.py. The cache on `get_keycloak_oauth_settings`
-- keeps the first result of a process; here the settings are read from the environment that is given.
use Prim.Native.String
use ingestion_airflow.Common.{String, ◌≡◌, refl, Option, none, [], ◌∷◌, str_eq, if◌then◌else◌}
use ingestion_airflow.Py.Exc.{runtime_error, Result, ok, raise, ◌>>=◌}
use ingestion_airflow.Py.Text.{concat}
use ingestion_airflow.Py.Text.Strip.{strip}
use ingestion_airflow.Py.Value.{Host}
use ingestion_airflow.Runtime.Env.{env_or, env_text}

abbrev pub default_provider_name : String
default_provider_name = "keycloak"

abbrev pub default_scope : String
default_scope = "openid email profile"

pub record KeycloakOauthSettings : Type 0 where
  pub client_id : String
  pub client_secret : String
  pub issuer_url : String
  pub internal_issuer_url : String
  pub provider_name : String
  pub scope : String

-- `url.rstrip("/")`
abbrev drop_slash : String → String → String
drop_slash c String.[] = if str_eq c "/" then "" else c
drop_slash c (String.◌∷◌ d s) = String.◌++◌ c (String.◌∷◌ d s)

unfoldable pub strip_slashes : String → String
strip_slashes String.[] = ""
strip_slashes (String.◌∷◌ c s) = drop_slash (String.◌∷◌ c "") (strip_slashes s)

unfoldable pub normalized_issuer_url : KeycloakOauthSettings → String
normalized_issuer_url settings = strip_slashes settings.issuer_url

unfoldable pub normalized_internal_issuer_url : KeycloakOauthSettings → String
normalized_internal_issuer_url settings = strip_slashes settings.internal_issuer_url

unfoldable pub oidc_base_url : KeycloakOauthSettings → String
oidc_base_url settings = concat (normalized_issuer_url settings ∷ "/protocol/openid-connect" ∷ [])

unfoldable pub internal_oidc_base_url : KeycloakOauthSettings → String
internal_oidc_base_url settings =
    concat (normalized_internal_issuer_url settings ∷ "/protocol/openid-connect" ∷ [])

unfoldable pub metadata_url : KeycloakOauthSettings → String
metadata_url settings =
    concat (normalized_internal_issuer_url settings ∷ "/.well-known/openid-configuration" ∷ [])

unfoldable pub auth_url : KeycloakOauthSettings → String
auth_url settings = concat (oidc_base_url settings ∷ "/auth" ∷ [])

unfoldable pub token_url : KeycloakOauthSettings → String
token_url settings = concat (internal_oidc_base_url settings ∷ "/token" ∷ [])

unfoldable pub jwks_url : KeycloakOauthSettings → String
jwks_url settings = concat (internal_oidc_base_url settings ∷ "/certs" ∷ [])

unfoldable pub required_env : Host → String → Result String
required_env host name =
    let value = env_text host name in
    if str_eq value ""
    then raise runtime_error (concat (name ∷ " is required for Airflow FAB OAuth SSO" ∷ []))
    else ok value

abbrev text_or : String → String → String
text_or s d = if str_eq s "" then d else s

-- `os.getenv("AIRFLOW_OAUTH_INTERNAL_ISSUER_URL") or _required_env("AIRFLOW_OAUTH_ISSUER_URL")`
abbrev internal_issuer : Host → String → Result String
internal_issuer host given =
    let issuer = required_env host "AIRFLOW_OAUTH_ISSUER_URL" in
    if str_eq given "" then issuer else ok given

unfoldable pub get_keycloak_oauth_settings : Host → Result KeycloakOauthSettings
get_keycloak_oauth_settings host = do
  client_id ← required_env host "AIRFLOW_OAUTH_CLIENT_ID"
  client_secret ← required_env host "AIRFLOW_OAUTH_CLIENT_SECRET"
  issuer_url ← required_env host "AIRFLOW_OAUTH_ISSUER_URL"
  internal_issuer_url ← internal_issuer host (env_or host "AIRFLOW_OAUTH_INTERNAL_ISSUER_URL" "")
  ok (record {
    client_id = client_id;
    client_secret = client_secret;
    issuer_url = issuer_url;
    internal_issuer_url = strip internal_issuer_url;
    provider_name =
        text_or
          (strip (text_or (env_or host "AIRFLOW_OAUTH_PROVIDER_NAME" "") default_provider_name))
          default_provider_name;
    scope =
        text_or (strip (text_or (env_or host "AIRFLOW_OAUTH_SCOPE" "") default_scope))
          default_scope;
  })

-- The dictionary that is handed to the FAB security manager, its nested ones flat.
pub record OauthProviderConfig : Type 0 where
  pub name : String
  pub token_key : String
  pub icon : String
  pub api_base_url : String
  pub access_token_url : String
  pub authorize_url : String
  pub request_token_url : Option String
  pub client_id : String
  pub client_secret : String
  pub server_metadata_url : String
  pub issuer : String
  pub jwks_uri : String
  pub scope : String

unfoldable pub build_oauth_provider_config : Host → Result OauthProviderConfig
build_oauth_provider_config host = do
  settings ← get_keycloak_oauth_settings host
  ok (record {
    name = settings.provider_name;
    token_key = "access_token";
    icon = "fa-key";
    api_base_url = internal_oidc_base_url settings;
    access_token_url = token_url settings;
    authorize_url = auth_url settings;
    request_token_url = none;
    client_id = settings.client_id;
    client_secret = settings.client_secret;
    server_metadata_url = metadata_url settings;
    issuer = normalized_issuer_url settings;
    jwks_uri = jwks_url settings;
    scope = settings.scope;
  })

issuer_runs :
    strip_slashes "http://localhost:8081/realms/vkr//" ≡ "http://localhost:8081/realms/vkr"
unfolding strip_slashes
issuer_runs = refl
