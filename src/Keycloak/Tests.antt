-- ===== src/Keycloak/Tests.antt =====
-- Roles and user info of ingestion_airflow/keycloak_fab_oauth.py on sample claims.
use ingestion_airflow.Common.{◌≡◌, ◌↔◌, refl, false, [], ◌∷◌, str_eq}
use ingestion_airflow.Py.Exc.{ok}
use ingestion_airflow.Py.Text.{is_one_of}
use ingestion_airflow.Py.Text.Strip.{strip, IsTrimmed}
use ingestion_airflow.Py.Value.{text, list, dict, nil, cons, end, field, str}
use ingestion_airflow.Py.Dict.{Dict, get}
use ingestion_airflow.Samples.{sample_host}
use ingestion_airflow.Keycloak.Roles.{IsIn, OrPublic, Granted, extract_airflow_role_keys_iff}
use ingestion_airflow.Keycloak.Claims.{
  UserInfo, filtered_roles, username_of, extract_airflow_role_keys, build_userinfo_from_claims,
  IsRoleKeys, userinfo-IsNamed,
}

abbrev sample_claims : Dict
sample_claims =
    ("preferred_username", text " ada ")
    ∷ (
      "realm_access",
      dict (field "roles" (list (cons (text "offline") (cons (text "Op") nil))) end),
    )
    ∷ []

abbrev sample_user : UserInfo
sample_user = record {
  username = "ada";
  email = "";
  first_name = "";
  last_name = "";
  role_keys = "Op" ∷ [];
}

sample_userinfo : build_userinfo_from_claims sample_host sample_claims ≡ ok sample_user
unfolding build_userinfo_from_claims username_of strip get str extract_airflow_role_keys
    filtered_roles is_one_of
sample_userinfo = refl

extract_airflow_role_keys_iff_example :
    IsIn "Op" (extract_airflow_role_keys sample_claims) ↔ OrPublic (Granted sample_claims) "Op"
extract_airflow_role_keys_iff_example = extract_airflow_role_keys_iff sample_claims "Op"

userinfo-IsNamed_example : IsTrimmed "ada" × (str_eq "ada" "" ≡ false) × IsRoleKeys ("Op" ∷ [])
userinfo-IsNamed_example = userinfo-IsNamed sample_host sample_claims sample_user sample_userinfo
