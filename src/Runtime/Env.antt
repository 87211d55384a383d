-- ===== src/Runtime/Env.antt =====
-- How ingestion_airflow/runtime.py reads the environment, and the token provider of the registry.
use ingestion_airflow.Common.{
  String, Bool, true, false, ◌||◌, Option, none, some, [], ◌∷◌, str_eq, if◌then◌else◌,
}
use ingestion_airflow.Py.Exc.{Result, ok, raise, value_error, ◌>>=◌}
use ingestion_airflow.Py.Text.{concat, is_one_of}
use ingestion_airflow.Py.Text.Strip.{strip, lower}
use ingestion_airflow.Py.Value.{Host}
use ingestion_airflow.Config.Parse.{or_none, yes_words, no_words}

unfoldable pub parse_bool_env : String → String → Result Bool
parse_bool_env value field_name =
    let lowered = lower (strip value) in
    if is_one_of lowered yes_words
    then ok true
    else if is_one_of lowered no_words
    then ok false
    else raise value_error (concat (field_name ∷ " must be a boolean" ∷ []))

abbrev pub env_or : Host → String → String → String
env_or host name d = elim (host.env name) [ none ↦ d | some s ↦ s ]

-- `(os.getenv(name) or "").strip()`
abbrev pub env_text : Host → String → String
env_text host name = strip (env_or host name "")

abbrev pub is_empty : String → Bool
is_empty s = str_eq s ""

-- ingestion_core.adapters.oidc_sts.OIDCClientCredentialsConfig; `verify_ssl` and `scope` where given
pub record OidcClientCredentialsConfig : Type 0 where
  pub token_url : String
  pub client_id : String
  pub client_secret : String
  pub verify_ssl : Option Bool
  pub scope : Option String

-- The provider asks for a token at each call; `request_oidc_access_token` is of ingestion_core.
unfoldable pub build_contracts_token_provider :
    Host
    → (request_oidc_access_token : OidcClientCredentialsConfig → Result String)
    → Result (Option (Unit {0} → Result String))
build_contracts_token_provider host request_oidc_access_token =
    let token_url = env_text host "CONTRACTS_OIDC_TOKEN_URL" in
    let client_id = env_text host "CONTRACTS_OIDC_CLIENT_ID" in
    let client_secret = env_or host "CONTRACTS_OIDC_CLIENT_SECRET" "" in
    let scope = or_none (env_text host "CONTRACTS_OIDC_SCOPE") in
    if is_empty token_url || is_empty client_id || is_empty client_secret then ok none else do
      verify_ssl ←
          parse_bool_env (env_or host "CONTRACTS_OIDC_VERIFY_SSL" "true")
            "CONTRACTS_OIDC_VERIFY_SSL"
      ok (
          some (λ _. request_oidc_access_token (record {
            token_url = token_url;
            client_id = client_id;
            client_secret = client_secret;
            verify_ssl = some verify_ssl;
            scope = scope;
          })))
