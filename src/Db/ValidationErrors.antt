-- ===== src/Db/ValidationErrors.antt =====
-- `replace_validation_errors_for_stage` of ingestion_airflow/db/audit.py.
pub mod Replace
use ingestion_airflow.Common.{
  ℕ, zero, suc, ◌+◌, String, ◌≡◌, refl, ap, ◌∙◌, Bool, true, false, not, ◌&&◌, Option, none, some,
  List, [], ◌∷◌, ◌++◌, arith, ◌==◌, str_eq, eq_refl, if◌then◌else◌, keep, length, All, Bool-cases,
  inl, inr,
}
use ingestion_airflow.Py.Exc.{
  Kind, value_error, type_error, Exception, Result, ok, raised, raise, ◌>>=◌,
}
use ingestion_airflow.Py.Int.{ℤ}
use ingestion_airflow.Py.Value.{Host, Value, null, text, truthy, str, int_of}
use ingestion_airflow.Py.Dict.{Dict, get}
use ingestion_airflow.Config.Parse.{trimmed_or_none, or_none}
use ingestion_airflow.Py.Text.Strip.{strip}
use ingestion_airflow.Db.Table.{delete_where}
use ingestion_airflow.Db.Tables.{
  ValidationErrorAudit, AuditDb, Formats, Action, parse_run_id, with_run_id,
}

unfoldable pub coerce_optional_text : Host → Value → Option String
coerce_optional_text host null = none
coerce_optional_text host value = or_none (strip (str host value))

-- `except (TypeError, ValueError): return None`
abbrev pub int_or_none : Kind → String → Result (Option ℤ)
int_or_none value_error m = ok none
int_or_none type_error m = ok none
int_or_none k m = raise k m

abbrev pub caught_int : Result ℤ → Result (Option ℤ)
caught_int (ok z) = ok (some z)
caught_int (raised e) = int_or_none e.kind e.message

unfoldable pub coerce_optional_int : Host → Value → Result (Option ℤ)
coerce_optional_int host null = ok none
coerce_optional_int host (text s) =
    if str_eq s "" then ok none else caught_int (int_of host (text s))
coerce_optional_int host value = caught_int (int_of host value)

-- `str(value or default)`
abbrev pub str_or : Host → Value → String → String
str_or host value d = if truthy value then str host value else d

abbrev pub optional_text : Option String → Value
optional_text none = null
optional_text (some s) = text s

-- The arguments that are the same for every row.
pub record ErrorContext : Type 0 where
  pub run_uuid : ℕ
  pub pipeline_id : String
  pub strategy : String
  pub run_mode : String
  pub stage_name : String
  pub error_object_key : Option String
  -- the time of the insert
  pub now : ℕ

unfoldable pub normalize_error : Host → ErrorContext → ℕ → Dict → Result ValidationErrorAudit
normalize_error host c error_id error = do
  row_number ← coerce_optional_int host (get error "row_number")
  ok (record {
    error_id = error_id;
    run_id = c.run_uuid;
    pipeline_id = c.pipeline_id;
    strategy = c.strategy;
    run_mode = c.run_mode;
    stage_name = c.stage_name;
    row_number = row_number;
    field = str_or host (get error "field") "$";
    code = str_or host (get error "code") "validation_error";
    message = str_or host (get error "message") "validation error";
    constraint = coerce_optional_text host (get error "constraint");
    actual_value = coerce_optional_text host (get error "actual_value");
    error_object_key = coerce_optional_text host (optional_text c.error_object_key);
    details_json = error;
    created_at = c.now;
  })

-- The loop over `error_rows`; `fresh k` is the UUID that the k-th call of `uuid.uuid4()` gives.
unfoldable pub normalize_errors :
    Host → ErrorContext → (fresh : ℕ → ℕ) → ℕ → List Dict → Result (List ValidationErrorAudit)
normalize_errors host c fresh k [] = ok []
normalize_errors host c fresh k (error ∷ errors) = do
  row ← normalize_error host c (fresh k) error
  rows ← normalize_errors host c fresh (suc k) errors
  ok (row ∷ rows)

abbrev pub is_error_of : ℕ → String → ValidationErrorAudit → Bool
is_error_of u stage_name r = r.run_id == u && str_eq r.stage_name stage_name

-- One transaction: the old rows of the stage go, the new ones come.
abbrev pub replace_rows : ErrorContext → Result (List ValidationErrorAudit) → Action ℕ
replace_rows c (raised e) db = (raised e, db)
replace_rows c (ok rows) db = (
  ok (length rows),
  record db {
    validation_error_audit =
        delete_where (is_error_of c.run_uuid c.stage_name) db.validation_error_audit ++ rows;
  },
)

unfoldable pub replace_validation_errors_for_stage :
    Host
    → Formats
    → (fresh : ℕ → ℕ) → (now : ℕ) → (run_id pipeline_id strategy run_mode stage_name : String)
    → Option String
    → List Dict
    → Action ℕ
replace_validation_errors_for_stage host formats fresh now run_id pipeline_id strategy run_mode
      stage_name error_object_key error_rows =
    with_run_id (parse_run_id formats run_id) (λ u.
      let c : ErrorContext = record {
        run_uuid = u;
        pipeline_id = pipeline_id;
        strategy = strategy;
        run_mode = run_mode;
        stage_name = stage_name;
        error_object_key = error_object_key;
        now = now;
      } in
      replace_rows c (normalize_errors host c fresh 0 error_rows))
