-- ===== src/Config/Steps.antt =====
-- Statements that the `from_dagrun_conf` methods of ingestion_airflow/config.py have in common.
pub mod Laws
pub mod Cdc
use ingestion_airflow.Common.{
  String, Bool, true, false, not, ◌&&◌, Option, none, some, str_eq, if◌then◌else◌, List, [], ◌∷◌,
}
use package.text.Mathlib.Text.{starts_with}
use ingestion_airflow.Py.Exc.{Result, ok, raise, value_error, ◌>>=◌}
use ingestion_airflow.Py.Text.{is_one_of}
use ingestion_airflow.Py.Text.Strip.{strip}
use ingestion_airflow.Py.Int.{ℤ, is_not_positive}
use ingestion_airflow.Py.Value.{Host, Value, text, str, int_of}
use ingestion_airflow.Py.Dict.{Dict, lookup, subscript}
use ingestion_airflow.Config.Parse.{
  value_or, parse_bool, is_given, missing, resolve_optional, resolve_required, or_default,
  logical_cdc_output_plugins, replica_identity_modes,
}

-- `str(conf[field_name])`
unfoldable pub subscript_text : Host → Dict → String → Result String
subscript_text host conf field_name = do v ← subscript conf field_name; ok (str host v)

-- `_parse_bool(conf.get(field_name, default_value), field_name)`
unfoldable pub parse_flag : Dict → String → String → Result Bool
parse_flag conf field_name default_value =
    parse_bool (value_or (lookup field_name conf) (text default_value)) field_name

-- `_resolve_required({}, "AUDIT_DATABASE_DSN", "AUDIT_DATABASE_DSN")`
unfoldable pub resolve_audit_dsn : Host → Result String
resolve_audit_dsn host = resolve_required host [] "AUDIT_DATABASE_DSN" (some "AUDIT_DATABASE_DSN")

-- `if auto_setup and not source_admin_dsn: raise …`
unfoldable pub require_admin_dsn : Bool → Option String → Result (Unit {0})
require_admin_dsn auto_setup source_admin_dsn =
    if auto_setup && not (is_given source_admin_dsn)
    then missing "source_admin_dsn or SOURCE_ADMIN_DSN"
    else ok tt

-- `if _resolve_optional(conf, "delta_object_key"): raise …`
unfoldable pub refuse_delta_object_key : Host → Dict → Result (Unit {0})
refuse_delta_object_key host conf =
    if is_given (resolve_optional host conf "delta_object_key" none)
    then raise value_error "delta_object_key is not supported; use parent_run_id"
    else ok tt

-- `parent_run_id = str(conf["parent_run_id"]).strip()`, refused where it is empty
unfoldable pub require_parent_run_id : Host → Dict → Result String
require_parent_run_id host conf = do
  given ← subscript_text host conf "parent_run_id"
  if str_eq (strip given) "" then missing "parent_run_id" else ok (strip given)

unfoldable pub parse_output_plugin : Host → Dict → Result String
parse_output_plugin host conf =
    let output_plugin = or_default (resolve_optional host conf "output_plugin" none) "pgoutput" in
    if is_one_of output_plugin logical_cdc_output_plugins
    then ok output_plugin
    else raise value_error "output_plugin must be 'pgoutput'; wal2json is not supported"

unfoldable pub parse_replica_identity_mode : Host → Dict → Result String
parse_replica_identity_mode host conf =
    let mode = or_default (resolve_optional host conf "replica_identity_mode" none) "default" in
    if is_one_of mode replica_identity_modes
    then ok mode
    else raise value_error "replica_identity_mode must be one of: default, full"

unfoldable pub parse_replication_dsn : Host → Dict → Result String
parse_replication_dsn host conf = do
  given ← subscript_text host conf "source_replication_dsn"
  if starts_with (strip given) "postgresql+"
      then raise value_error
          "source_replication_dsn must use psycopg2 DSN format postgresql://..., not SQLAlchemy driver URL"
      else ok (strip given)

-- `int(…)` of the text, and a test that it is positive
abbrev pub positive_timeout : Result ℤ → Result (Option ℤ)
positive_timeout parsed = do
  z ← parsed
  if is_not_positive z
      then raise value_error "idle_timeout_seconds must be greater than zero"
      else ok (some z)

abbrev pub timeout_of : Host → Option String → Result (Option ℤ)
timeout_of host none = ok none
timeout_of host (some s) = positive_timeout (int_of host (text s))

unfoldable pub parse_idle_timeout : Host → Dict → Result (Option ℤ)
parse_idle_timeout host conf =
    timeout_of host (resolve_optional host conf "idle_timeout_seconds" none)
