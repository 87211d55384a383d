-- ===== src/Py/Value.antt =====
-- The values that `json` decodes and that a DAG run configuration, an XCom payload or a JSONB column
-- holds, with the built-in conversions that the source applies to them.
use Prim.Native.Char.{Char}
use ingestion_airflow.Common.{
  ℕ, suc, ◌*◌, ◌/◌, ◌^◌, String, Bool, true, false, not, Option, none, some, [], ◌∷◌, str_eq, ◌==◌,
}
use ingestion_airflow.Py.Exc.{Result, ok, raise, value_error, type_error, overflow_error}
use ingestion_airflow.Py.Int.{ℤ, pos, negsuc, negate, is_zero, show_int, int_of_text}
use ingestion_airflow.Py.Text.{concat}

-- A double: `finite s m e` is m * 2 ^ e, negative if `s`.
pub data Float : Type 0 where
  finite : Bool → ℕ → ℤ → Float
  inf : Bool → Float
  nan : Float

mutual
  pub data Value : Type 0 where
    null : Value
    bool : Bool → Value
    int : ℤ → Value
    float : Float → Value
    text : String → Value
    list : Items → Value
    dict : Fields → Value

  pub data Items : Type 0 where
    nil : Items
    cons : Value → Items → Items

  pub data Fields : Type 0 where
    end : Fields
    field : String → Value → Fields → Fields

-- What the interpreter gives: the environment variables, `repr`, and the decimal digits beyond ASCII.
pub record Host : Type 0 where
  pub env : String → Option String
  pub repr : Value → String
  pub wide_digit : Char → Option ℕ

abbrev is_finite_zero : Float → Bool
is_finite_zero (finite s m e) = m == 0
is_finite_zero _ = false

-- `bool(value)`
abbrev pub truthy : Value → Bool
truthy null = false
truthy (bool b) = b
truthy (int z) = not (is_zero z)
truthy (float f) = not (is_finite_zero f)
truthy (text s) = not (str_eq s "")
truthy (list nil) = false
truthy (list (cons v vs)) = true
truthy (dict end) = false
truthy (dict (field k v fs)) = true

abbrev pub is_null : Value → Bool
is_null null = true
is_null _ = false

-- `str(value)`
unfoldable pub str : Host → Value → String
str host null = "None"
str host (bool true) = "True"
str host (bool false) = "False"
str host (int z) = show_int z
str host (text s) = s
str host v = host.repr v

abbrev signed_int : Bool → ℕ → ℤ
signed_int false n = pos n
signed_int true n = negate n

-- `int(f)` drops the fraction.
truncate : Float → Result ℤ
truncate (finite s m (pos e)) = ok (signed_int s (m * 2 ^ e))
truncate (finite s m (negsuc e)) = ok (signed_int s (m / 2 ^ suc e))
truncate (inf s) = raise overflow_error "cannot convert float infinity to integer"
truncate nan = raise value_error "cannot convert float NaN to integer"

abbrev pub parsed_int : Host → String → Option ℤ → Result ℤ
parsed_int host s (some z) = ok z
parsed_int host s none =
    raise value_error
      (concat ("invalid literal for int() with base 10: " ∷ host.repr (text s) ∷ []))

-- `int(value)`
unfoldable pub int_of : Host → Value → Result ℤ
unfolding truncate
int_of host (bool true) = ok (pos 1)
int_of host (bool false) = ok (pos 0)
int_of host (int z) = ok z
int_of host (float f) = truncate f
int_of host (text s) = parsed_int host s (int_of_text host.wide_digit s)
int_of host _ =
    raise type_error "int() argument must be a string, a bytes-like object or a real number"
