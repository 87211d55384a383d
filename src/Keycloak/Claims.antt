-- ===== src/Keycloak/Claims.antt =====
-- Token claims, roles and user info of ingestion_airflow/keycloak_fab_oauth.py.
use ingestion_airflow.Common.{
  String, ◌≡◌, ◌≢◌, refl, ◌⊎◌, inl, inr, true, false, not, ◌&&◌, List, [], ◌∷◌, arith, str_eq,
  if◌then◌else◌, All, Bool-cases,
}
use ingestion_airflow.Py.Exc.{value_error, Result, ok, raise, ◌>>=◌}
use ingestion_airflow.Py.Text.{is_one_of}
use ingestion_airflow.Py.Text.Strip.{strip, IsTrimmed, strip_idem}
use ingestion_airflow.Py.Value.{Host, Value, text, list, dict, Items, nil, cons, truthy, str}
use ingestion_airflow.Py.Dict.{Dict, get, entries}
use ingestion_airflow.Keycloak.Settings.{
  KeycloakOauthSettings, get_keycloak_oauth_settings, jwks_url, normalized_issuer_url,
}

abbrev pub airflow_role_names : List String
airflow_role_names = "Viewer" ∷ "User" ∷ "Op" ∷ "Admin" ∷ "SuperAdmin" ∷ []

abbrev pub default_public_role : String
default_public_role = "Public"

-- `str(value or "")`
abbrev pub text_of : Host → Value → String
text_of host value = if truthy value then str host value else ""

-- `[role for role in roles if isinstance(role, str) and role in AIRFLOW_ROLE_NAMES]`
unfoldable pub filtered_roles : Items → List String
filtered_roles nil = []
filtered_roles (cons (text role) roles) =
    let rest = filtered_roles roles in
    if is_one_of role airflow_role_names then role ∷ rest else rest
filtered_roles (cons other roles) = filtered_roles roles

abbrev pub or_public : List String → List String
or_public [] = default_public_role ∷ []
or_public (r ∷ rs) = r ∷ rs

abbrev pub roles_of_list : Value → List String
roles_of_list (list roles) = or_public (filtered_roles roles)
roles_of_list _ = default_public_role ∷ []

abbrev pub roles_of_access : Value → List String
roles_of_access (dict realm_access) = roles_of_list (get (entries realm_access) "roles")
roles_of_access _ = default_public_role ∷ []

unfoldable pub extract_airflow_role_keys : Dict → List String
unfolding filtered_roles
extract_airflow_role_keys claims = roles_of_access (get claims "realm_access")

pub record UserInfo : Type 0 where
  pub username : String
  pub email : String
  pub first_name : String
  pub last_name : String
  pub role_keys : List String

abbrev pub first_truthy : Value → Value → Value
first_truthy a b = if truthy a then a else b

unfoldable pub username_of : Host → Dict → String
username_of host claims =
    strip (text_of host (first_truthy (get claims "preferred_username") (get claims "sub")))

unfoldable pub build_userinfo_from_claims : Host → Dict → Result UserInfo
unfolding username_of
build_userinfo_from_claims host claims =
    let username = username_of host claims in
    if str_eq username ""
    then raise value_error "Keycloak access token does not contain a username"
    else ok (record {
      username = username;
      email = strip (text_of host (get claims "email"));
      first_name = strip (text_of host (get claims "given_name"));
      last_name = strip (text_of host (get claims "family_name"));
      role_keys = extract_airflow_role_keys claims;
    })

-- `decode` is the signing key's lookup at the JWKS URL and `jwt.decode` with the audience and the
-- issuer: the claims, or what it raises.
abbrev pub Decode : Type 0
Decode = (jwks_url access_token audience issuer : String) → Result Dict

abbrev check_party : KeycloakOauthSettings → Host → Dict → Result Dict
check_party settings host claims =
    let authorized_party = strip (text_of host (get claims "azp")) in
    if not (str_eq authorized_party "") && not (str_eq authorized_party settings.client_id)
    then raise value_error "Unexpected authorized party in Keycloak access token"
    else ok claims

unfoldable pub decode_keycloak_access_token : Host → Decode → String → Result Dict
decode_keycloak_access_token host decode access_token = do
  settings ← get_keycloak_oauth_settings host
  claims ←
      decode (jwks_url settings) access_token settings.client_id (normalized_issuer_url settings)
  check_party settings host claims

unfoldable pub build_userinfo_from_access_token : Host → Decode → String → Result UserInfo
build_userinfo_from_access_token host decode access_token = do
  claims ← decode_keycloak_access_token host decode access_token
  build_userinfo_from_claims host claims

abbrev pub IsRole : String → Type 0
IsRole r = is_one_of r airflow_role_names ≡ true

filtered_roles-IsRole : (roles : Items) → All IsRole (filtered_roles roles)
unfolding filtered_roles
filtered_roles-IsRole nil = tt
filtered_roles-IsRole (cons (text role) roles) =
    elim (Bool-cases (is_one_of role airflow_role_names)) [
      | inl e ↦ rw e (e, filtered_roles-IsRole roles)
      | inr e ↦ rw e (filtered_roles-IsRole roles)
    ]
filtered_roles-IsRole (cons other roles) = filtered_roles-IsRole roles

-- Airflow roles alone, at least one of them, or the public role alone.
abbrev pub IsRoleKeys : List String → Type 0
IsRoleKeys keys = ((keys ≢ []) × All IsRole keys) ⊎ (keys ≡ default_public_role ∷ [])

or_public-IsRoleKeys : (rs : List String) → All IsRole rs → IsRoleKeys (or_public rs)
or_public-IsRoleKeys [] h = inr refl
or_public-IsRoleKeys (r ∷ rs) h = inl (cc, h)

-- Whatever the claims say, the roles that a user gets are either Airflow's own, at least one of
-- them, or the public role alone.
pub extract_airflow_role_keys_lem : (claims : Dict) → IsRoleKeys (extract_airflow_role_keys claims)
unfolding extract_airflow_role_keys
extract_airflow_role_keys_lem claims = of_access (get claims "realm_access")
  where
    of_list : (v : Value) → IsRoleKeys (roles_of_list v)
    of_list (list roles) = or_public-IsRoleKeys (filtered_roles roles) (filtered_roles-IsRole roles)
    of_list _ = inr refl

    of_access : (v : Value) → IsRoleKeys (roles_of_access v)
    of_access (dict realm_access) = of_list (get (entries realm_access) "roles")
    of_access _ = inr refl

-- The user info that is built from claims has a user name that is not empty and has no white space
-- around it, and roles that are Airflow's own or the public one alone.
pub userinfo-IsNamed :
    (host : Host) (claims : Dict) (u : UserInfo)
    → build_userinfo_from_claims host claims ≡ ok u
    → IsTrimmed u.username × (str_eq u.username "" ≡ false) × IsRoleKeys u.role_keys
unfolding build_userinfo_from_claims
userinfo-IsNamed host claims u h = elim (Bool-cases (str_eq (username_of host claims) "")) [
  | inl e ↦ absurd (cc (rw e at h))
  | inr e ↦
      let same : username_of host claims ≡ u.username = ground arith in
      let keys : extract_airflow_role_keys claims ≡ u.role_keys = ground arith in
      (
        rw (← same) (strip_idem _),
        rw (← same) e,
        rw (← keys) (extract_airflow_role_keys_lem claims),
      )
]
