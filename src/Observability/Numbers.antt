-- ===== src/Observability/Numbers.antt =====
-- The readings of counts and durations in ingestion_airflow/observability.py.
use ingestion_airflow.Common.{
  ℕ, suc, String, Bool, true, false, not, ◌&&◌, Option, none, some, List, [], ◌∷◌, str_eq, ◌==◌,
  if◌then◌else◌,
}
use ingestion_airflow.Py.Exc.{Kind, value_error, type_error, Result, ok, raised, raise, ◌>>=◌}
use ingestion_airflow.Py.Int.{ℤ, pos, is_not_positive, ◌+ℤ◌}
use ingestion_airflow.Py.Value.{
  Host, Float, finite, inf, nan, Value, null, float, text, list, dict, Items, nil, cons, Fields,
  end, field, truthy, int_of,
}
use ingestion_airflow.Py.Dict.{Dict, get, insert}

-- Arithmetic on doubles: `float(value)`, `n / f`, `n / m` and `round(f, digits)`. The divisions are not
-- asked to divide by zero; they may overflow.
pub record Floats : Type 0 where
  pub float_of : Value → Result Float
  pub divide : ℤ → Float → Result Float
  pub ratio : ℤ → ℤ → Result Float
  pub round : Float → ℕ → Float

abbrev pub is_float_positive : Float → Bool
is_float_positive (finite s m e) = not s && not (m == 0)
is_float_positive (inf s) = not s
is_float_positive nan = false

-- `value is None or value == ""`
abbrev pub is_blank : Value → Bool
is_blank null = true
is_blank (text s) = str_eq s ""
is_blank _ = false

-- `except (TypeError, ValueError)`
abbrev pub is_conversion_error : Kind → Bool
is_conversion_error value_error = true
is_conversion_error type_error = true
is_conversion_error k = false

-- One round of the loop of `_first_int`, with what the later keys give.
abbrev pub int_or_next : Result ℤ → Result (Option ℤ) → Result (Option ℤ)
int_or_next (ok z) next = ok (some z)
int_or_next (raised x) next = if is_conversion_error x.kind then next else raised x

unfoldable pub first_int : Host → Dict → List String → Result (Option ℤ)
first_int host payload [] = ok none
first_int host payload (key ∷ keys) =
    let next = first_int host payload keys in
    let value = get payload key in
    if is_blank value then next else int_or_next (int_of host value) next

abbrev pub float_or_none : Result Float → Result (Option Float)
float_or_none (ok f) = ok (some f)
float_or_none (raised x) = if is_conversion_error x.kind then ok none else raised x

unfoldable pub number_or_none : Floats → Value → Result (Option Float)
number_or_none floats value =
    if is_blank value then ok none else float_or_none (floats.float_of value)

-- `value or 0`
abbrev pub or_zero : Option ℤ → ℤ
or_zero none = pos 0
or_zero (some z) = z

abbrev count_items : Items → ℕ
count_items nil = 0
count_items (cons v vs) = suc (count_items vs)

abbrev count_fields : Fields → ℕ
count_fields end = 0
count_fields (field k v fs) = suc (count_fields fs)

abbrev text_length : String → ℕ
text_length String.[] = 0
text_length (String.◌∷◌ c s) = suc (text_length s)

-- `len(value or [])`
abbrev pub length_or_empty : Value → Result ℕ
length_or_empty (list vs) = ok (count_items vs)
length_or_empty (dict fs) = ok (count_fields fs)
length_or_empty (text s) = ok (text_length s)
length_or_empty value = if truthy value then raise type_error "object has no len()" else ok 0

-- `round(count / seconds, 3)` where there is a count and a positive duration
abbrev pub rate : Floats → Option ℤ → Option Float → Result (Option Float)
rate floats (some count) (some seconds) =
    if is_float_positive seconds
    then (do f ← floats.divide count seconds; ok (some (floats.round f 3)))
    else ok none
rate floats count seconds = ok none

-- `round(part / whole, 6)` where there is a part and a positive whole
abbrev pub share : Floats → Option ℤ → Option ℤ → Result (Option Float)
share floats (some part) (some whole) =
    if is_not_positive whole
    then ok none
    else (do f ← floats.ratio part whole; ok (some (floats.round f 6)))
share floats part whole = ok none

abbrev pub put_float : String → Option Float → Dict → Dict
put_float key none derived = derived
put_float key (some f) derived = insert key (float f) derived

-- The counts are read only where `read_count` is positive.
unfoldable pub changes : Host → Floats → Dict → ℤ → Result (Option Float)
changes host floats payload read_count = do
  insert_count ← first_int host payload ("insert_count" ∷ [])
  update_count ← first_int host payload ("update_count" ∷ [])
  delete_count ← first_int host payload ("delete_count" ∷ [])
  share floats (some (or_zero insert_count +ℤ or_zero update_count +ℤ or_zero delete_count))
      (some read_count)

abbrev pub change_share : Host → Floats → Dict → Option ℤ → Result (Option Float)
change_share host floats payload none = ok none
change_share host floats payload (some read_count) =
    if is_not_positive read_count then ok none else changes host floats payload read_count

unfoldable pub derive_rate_metrics : Host → Floats → Dict → Result Dict
derive_rate_metrics host floats payload = do
  source_count ← first_int host payload ("source_row_count" ∷ "source_event_count" ∷ [])
  source_read_seconds ← number_or_none floats (get payload "source_read_seconds")
  source_rate ← rate floats source_count source_read_seconds
  read_count ← first_int host payload ("read_count" ∷ [])
  total_seconds ← number_or_none floats (get payload "total_seconds")
  processed_rate ← rate floats read_count total_seconds
  change_ratio ← change_share host floats payload read_count
  invalid_count ← first_int host payload ("invalid_row_count" ∷ "invalid_event_count" ∷ [])
  invalid_ratio ← share floats invalid_count source_count
  ok (
      put_float "invalid_ratio" invalid_ratio (
        put_float "change_ratio" change_ratio (
          put_float "processed_records_per_second" processed_rate
            (put_float "source_records_per_second" source_rate []))))
