-- ===== src/Config/Parse.antt =====
-- The module-level helpers of ingestion_airflow/config.py.
pub mod Fields
pub mod Texts
pub mod Ints
pub mod Flags
use ingestion_airflow.Common.{
  ℕ, String, Bool, true, false, not, ◌||◌, Option, none, some, List, [], ◌∷◌, str_eq, map, keep,
  if◌then◌else◌,
}
use ingestion_airflow.Py.Exc.{
  Kind, Exception, Result, ok, raised, raise, value_error, type_error, ◌>>=◌, ◌>>◌,
}
use ingestion_airflow.Py.Text.{concat, join, is_one_of, sorted}
use ingestion_airflow.Py.Text.Strip.{strip, lower}
use ingestion_airflow.Py.Int.{ℤ, pos, is_not_positive}
use ingestion_airflow.Py.Value.{Host, Value, null, bool, int, text, truthy, is_null, str, int_of}
use ingestion_airflow.Py.Dict.{DictOf, Dict, lookup, get}

abbrev pub watermark_modes : List String
watermark_modes = "auto" ∷ "commit_timestamp" ∷ "recorded_at" ∷ []

abbrev pub logical_cdc_output_plugins : List String
logical_cdc_output_plugins = "pgoutput" ∷ []

abbrev pub replica_identity_modes : List String
replica_identity_modes = "default" ∷ "full" ∷ []

abbrev pub yes_words : List String
yes_words = "1" ∷ "true" ∷ "yes" ∷ "y" ∷ []

abbrev pub no_words : List String
no_words = "0" ∷ "false" ∷ "no" ∷ "n" ∷ []

abbrev not_a_boolean : String → Result Bool
not_a_boolean field_name = raise value_error (concat (field_name ∷ " must be a boolean" ∷ []))

unfoldable pub parse_bool : Value → String → Result Bool
parse_bool (bool b) field_name = ok b
parse_bool (text s) field_name =
    let lowered = lower (strip s) in
    if is_one_of lowered yes_words
    then ok true
    else if is_one_of lowered no_words
    then ok false
    else not_a_boolean field_name
parse_bool _ field_name = not_a_boolean field_name

abbrev env_value : Option String → Value
env_value none = null
env_value (some s) = text s

-- `if value is None and env_name: value = os.getenv(env_name)`
abbrev pub or_env : Host → Option String → Value → Value
or_env host (some env_name) null =
    if str_eq env_name "" then null else env_value (host.env env_name)
or_env host env_name value = value

-- The value that is read, from the configuration first and then from the environment.
unfoldable pub candidate : Host → Dict → String → Option String → Value
candidate host conf field_name env_name = or_env host env_name (get conf field_name)

abbrev hint : String → Option String → String
hint field_name none = field_name
hint field_name (some env_name) =
    if str_eq env_name field_name then field_name else concat (field_name ∷ " or " ∷ env_name ∷ [])

abbrev pub missing {ℓ} : {A : Type ℓ} → String → Result A
missing names = raise value_error (concat ("Missing required configuration values: " ∷ names ∷ []))

unfoldable pub resolve_required : Host → Dict → String → Option String → Result String
unfolding candidate
resolve_required host conf field_name env_name =
    let value = candidate host conf field_name env_name in
    if is_null value || str_eq (strip (str host value)) ""
    then missing (hint field_name env_name)
    else ok (strip (str host value))

-- `text or None`
abbrev pub or_none : String → Option String
or_none s = if str_eq s "" then none else some s

-- `None` for None, else the trimmed text, or None where that is empty.
unfoldable pub trimmed_or_none : Host → Value → Option String
trimmed_or_none host null = none
trimmed_or_none host value = or_none (strip (str host value))

unfoldable pub resolve_optional : Host → Dict → String → Option String → Option String
unfolding candidate trimmed_or_none
resolve_optional host conf field_name env_name =
    trimmed_or_none host (candidate host conf field_name env_name)

-- `found or default`
abbrev pub or_default : Option String → String → String
or_default none d = d
or_default (some s) d = if str_eq s "" then d else s

abbrev pub absent_fields : Dict → List String → List String
absent_fields conf required_fields = keep (λ f. not (truthy (get conf f))) required_fields

abbrev pub refuse_missing : List String → Result (Unit {0})
refuse_missing [] = ok tt
refuse_missing (f ∷ fs) = missing (join ", " (sorted (f ∷ fs)))

unfoldable pub require_fields : Dict → List String → Result (Unit {0})
require_fields conf required_fields = refuse_missing (absent_fields conf required_fields)

-- `conf.get(field_name, default_value)` with a number for the default
abbrev pub int_or : Option Value → ℕ → Value
int_or none default_value = int (pos default_value)
int_or (some v) default_value = v

-- The loop that fills `parsed`.
unfoldable pub read_ints : Host → Dict → DictOf ℕ → Result (DictOf ℤ)
read_ints host conf [] = ok []
read_ints host conf ((field_name, default_value) ∷ field_defaults) = do
  z ← int_of host (int_or (lookup field_name conf) default_value)
  parsed ← read_ints host conf field_defaults
  ok ((field_name, z) ∷ parsed)

-- `except (TypeError, ValueError) as exc: raise ValueError(…) from exc`
abbrev must_be_integers : String → Kind → String → Result (DictOf ℤ)
must_be_integers names value_error m = raise value_error (concat (names ∷ " must be integers" ∷ []))
must_be_integers names type_error m = raise value_error (concat (names ∷ " must be integers" ∷ []))
must_be_integers names k m = raise k m

abbrev pub or_must_be_integers : String → Result (DictOf ℤ) → Result (DictOf ℤ)
or_must_be_integers names (ok parsed) = ok parsed
or_must_be_integers names (raised e) = must_be_integers names e.kind e.message

abbrev pub refuse_invalid : DictOf ℤ → List String → Result (DictOf ℤ)
refuse_invalid parsed [] = ok parsed
refuse_invalid parsed (f ∷ fs) =
    raise value_error (concat (join ", " (f ∷ fs) ∷ " must be greater than zero" ∷ []))

abbrev pub invalid_ints : DictOf ℤ → List String
invalid_ints parsed =
    map (λ (entry : String × ℤ). entry.0) (keep (λ entry. is_not_positive entry.1) parsed)

unfoldable pub parse_positive_ints : Host → Dict → DictOf ℕ → Result (DictOf ℤ)
unfolding read_ints
parse_positive_ints host conf field_defaults = do
  let names = join ", " (map (λ (entry : String × ℕ). entry.0) field_defaults)
  parsed ← or_must_be_integers names (read_ints host conf field_defaults)
  refuse_invalid parsed (invalid_ints parsed)

unfoldable pub parse_contract_version : Host → Dict → Option String
parse_contract_version host conf = trimmed_or_none host (get conf "contract_version")

-- `landing_s3_bucket`, `_prefix`, `_endpoint_url`, `_region` and `_verify_ssl`, in that order.
abbrev pub LandingConfig : Type 0
LandingConfig = String × String × Option String × Option String × Bool

abbrev pub text_or : Option String → String → Value
text_or none d = text d
text_or (some s) d = text s

abbrev pub value_or : Option Value → Value → Value
value_or none d = d
value_or (some v) d = v

unfoldable pub parse_landing_config : Host → Dict → Result LandingConfig
parse_landing_config host conf = do
  landing_s3_bucket ← resolve_required host conf "landing_s3_bucket" (some "LANDING_S3_BUCKET")
  let landing_s3_prefix =
      or_default (resolve_optional host conf "landing_s3_prefix" (some "LANDING_S3_PREFIX"))
        "accepted"
  let landing_s3_endpoint_url =
      resolve_optional host conf "landing_s3_endpoint_url" (some "LANDING_S3_ENDPOINT_URL")
  let landing_s3_region = resolve_optional host conf "landing_s3_region" (some "LANDING_S3_REGION")
  landing_s3_verify_ssl ←
      parse_bool
        (value_or (lookup "landing_s3_verify_ssl" conf)
          (text_or (host.env "LANDING_S3_VERIFY_SSL") "true"))
        "landing_s3_verify_ssl"
  ok (
    landing_s3_bucket, landing_s3_prefix, landing_s3_endpoint_url, landing_s3_region,
    landing_s3_verify_ssl,
  )

abbrev pub is_given : Option String → Bool
is_given none = false
is_given (some s) = not (str_eq s "")

abbrev same : Bool → Bool → Bool
same true b = b
same false b = not b

unfoldable pub parse_replay_input : Host → Dict → String → Result (Option String × Option String)
parse_replay_input host conf object_key_field_name =
    let object_key = trimmed_or_none host (get conf object_key_field_name) in
    let parent_run_id = trimmed_or_none host (get conf "parent_run_id") in
    if same (is_given object_key) (is_given parent_run_id)
    then raise value_error
        (concat ("Provide exactly one of " ∷ object_key_field_name ∷ " or parent_run_id" ∷ []))
    else ok (object_key, parent_run_id)

unfoldable pub parse_watermark_mode : Host → Dict → Result String
parse_watermark_mode host conf =
    let value = or_default (resolve_optional host conf "watermark_mode" none) "auto" in
    if is_one_of value watermark_modes
    then ok value
    else raise value_error
        (concat ("watermark_mode must be one of: " ∷ join ", " (sorted watermark_modes) ∷ []))

unfoldable pub build_pipeline_id : String → String → String → String
build_pipeline_id namespace name strategy = concat (namespace ∷ "." ∷ name ∷ "." ∷ strategy ∷ [])
