-- ===== src/Py/Dict.antt =====
-- `dict` with text keys, in insertion order.
use ingestion_airflow.Common.{
  String, ◌≡◌, refl, Option, none, some, List, [], ◌∷◌, arith, str_eq, eq_iff, if◌then◌else◌,
}
use ingestion_airflow.Py.Exc.{Result, ok, raise, key_error}
use ingestion_airflow.Py.Value.{Value, null, Fields, end, field}

abbrev pub DictOf {ℓ} : Type ℓ → Type ℓ
DictOf V = List (String × V)

abbrev pub Dict : Type 0
Dict = DictOf Value

module _ {ℓ} {V : Type ℓ} where
  -- `d.get(k)`, with `none` for a missing key
  unfoldable pub lookup : String → DictOf V → Option V
  lookup k [] = none
  lookup k ((j, v) ∷ d) = if str_eq j k then some v else lookup k d

  -- `d[k] = v`
  unfoldable pub insert : String → V → DictOf V → DictOf V
  insert k v [] = (k, v) ∷ []
  insert k v ((j, w) ∷ d) = if str_eq j k then (j, v) ∷ d else (j, w) ∷ insert k v d

  -- `d.update(e)`, and `{**d, **e}`
  unfoldable pub update : DictOf V → DictOf V → DictOf V
  unfolding insert
  update d [] = d
  update d ((k, v) ∷ e) = update (insert k v d) e

  abbrev pub found : String → Option V → Result V
  found k none = raise key_error k
  found k (some v) = ok v

  -- `d[k]`
  unfoldable pub subscript : DictOf V → String → Result V
  unfolding lookup
  subscript d k = found k (lookup k d)

  pub lookup-insert :
      (k j : String) (v : V) (d : DictOf V)
      → lookup j (insert k v d) ≡ (if str_eq k j then some v else lookup j d)
  unfolding lookup insert
  lookup-insert k j v [] = refl
  lookup-insert k j v ((i, w) ∷ d) =
      ground (arith, eq_iff k j, eq_iff i k, eq_iff i j, lookup-insert k j v d)

-- The value under a key, `None` for a missing one.
abbrev pub or_null : Option Value → Value
or_null none = null
or_null (some v) = v

unfoldable pub get : Dict → String → Value
unfolding lookup
get d k = or_null (lookup k d)

-- A dictionary inside a value.
abbrev pub entries : Fields → Dict
entries end = []
entries (field k v fs) = (k, v) ∷ entries fs

abbrev pub to_fields : Dict → Fields
to_fields [] = end
to_fields ((k, v) ∷ d) = field k v (to_fields d)

pub entries-to_fields : (d : Dict) → entries (to_fields d) ≡ d
entries-to_fields [] = refl
entries-to_fields ((k, v) ∷ d) = λ i. (k, v) ∷ entries-to_fields d i
