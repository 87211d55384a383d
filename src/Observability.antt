-- ===== src/Observability.antt =====
-- The text helpers of ingestion_airflow/observability.py.
pub mod Numbers
pub mod Enrich
use Prim.Native.Char.{code}
use ingestion_airflow.Common.{
  ℕ, zero, suc, String, Bool, true, false, ◌&&◌, ◌||◌, Option, none, some, [], ◌∷◌, str_eq, ◌==◌,
  if◌then◌else◌,
}
use ingestion_airflow.Py.Text.{concat}
use ingestion_airflow.Py.Text.Strip.{strip}
use ingestion_airflow.Py.Value.{Host, Value, null, str}
use ingestion_airflow.Py.Dict.{Dict}
use ingestion_airflow.Config.Parse.{or_none}

unfoldable pub observed_text : Host → Value → Option String
observed_text host null = none
observed_text host value = or_none (strip (str host value))

-- `s.endswith(suffix)`
unfoldable pub ends_with : String → String → Bool
ends_with String.[] suffix = str_eq "" suffix
ends_with (String.◌∷◌ c s) suffix = str_eq (String.◌∷◌ c s) suffix || ends_with s suffix

abbrev is_there : Option String → Bool
is_there none = false
is_there (some s) = true

unfoldable pub has_artifact_keys : Host → Dict → Bool
has_artifact_keys host [] = false
has_artifact_keys host ((key, value) ∷ payload) =
    ((ends_with key "_object_key" || ends_with key "_manifest_key")
      && is_there (observed_text host value))
    || has_artifact_keys host payload

-- `s.replace("_", "-")`
unfoldable pub compact : String → String
compact String.[] = ""
compact (String.◌∷◌ c s) =
    if code c == 95 then String.◌∷◌ "-" (compact s) else String.◌∷◌ c (compact s)

-- `s[:n]`
unfoldable pub prefix_of : ℕ → String → String
prefix_of zero s = ""
prefix_of (suc n) String.[] = ""
prefix_of (suc n) (String.◌∷◌ c s) = String.◌∷◌ c (prefix_of n s)

unfoldable pub build_application_name : (strategy run_mode stage_name role : String) → String
build_application_name strategy run_mode stage_name role = prefix_of 63 (
    concat (
      "ingestion/"
      ∷ compact strategy
      ∷ "/"
      ∷ compact run_mode
      ∷ "/"
      ∷ compact stage_name
      ∷ "/"
      ∷ compact role
      ∷ []))
