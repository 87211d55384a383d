-- ===== src/Config/Parse/Texts.antt =====
-- The text helpers of ingestion_airflow/config.py: required and optional texts, required fields.
use ingestion_airflow.Common.{
  String, ◌≡◌, refl, sym, ap, inl, inr, true, false, ◌||◌, Option, none, some, List, [], ◌∷◌, arith,
  str_eq, All, Bool-cases,
}
use ingestion_airflow.Py.Exc.{
  Kind, value_error, overflow_error, Result, ok, Ensures, returns, raises,
}
use ingestion_airflow.Py.Text.Strip.{strip, IsTrimmed, strip_idem}
use ingestion_airflow.Py.Value.{Host, Value, null, truthy, is_null, str}
use ingestion_airflow.Py.Dict.{Dict, get, lookup}
use ingestion_airflow.Config.Parse.{
  candidate, resolve_required, or_none, trimmed_or_none, resolve_optional, absent_fields,
  refuse_missing, require_fields,
}

-- The kinds of exception that reading a configuration may raise.
abbrev pub IsConfigError : Kind → Type 0
IsConfigError value_error = Unit
IsConfigError overflow_error = Unit
IsConfigError _ = ⊥

abbrev pub IsValueError : Kind → Type 0
IsValueError value_error = Unit
IsValueError _ = ⊥

-- A text with content, and no white space around it.
pub record IsContent (s : String) : Type 0 where
  pub trimmed : IsTrimmed s
  pub nonempty : str_eq s "" ≡ false

-- What `resolve_required` returns: the trimmed text of the value that is read.
pub record IsResolved (host : Host) (conf : Dict) (field_name : String) (env_name : Option String)
    (s : String) : Type 0 where
  pub content : IsContent s
  pub given : is_null (candidate host conf field_name env_name) ≡ false
  pub source : s ≡ strip (str host (candidate host conf field_name env_name))

abbrev pub IsAbsent : Host → Value → Type 0
IsAbsent host value = (is_null value || str_eq (strip (str host value)) "") ≡ true

module _ (host : Host) (conf : Dict) (field_name : String) (env_name : Option String) where
  pub resolve_required_lem :
      Ensures
        (IsResolved host conf field_name env_name)
        IsValueError
        (resolve_required host conf field_name env_name)
  unfolding resolve_required
  resolve_required_lem = elim (Bool-cases (is_null value || str_eq (strip (str host value)) "")) [
    | inl e ↦ rw e (raises tt)
    | inr e ↦ rw e (
        returns (record {
          content = record { trimmed = strip_idem _; nonempty = ground arith };
          given = ground arith;
          source = refl;
        }))
  ]
    where
      value : Value
      value = candidate host conf field_name env_name

-- The optional text, if there is one, has content.
abbrev pub HasContent : Option String → Type 0
HasContent none = Unit
HasContent (some s) = IsContent s

or_none-HasContent : (s : String) → IsTrimmed s → HasContent (or_none s)
or_none-HasContent s h = elim (Bool-cases (str_eq s "")) [
  | inl e ↦ rw e tt
  | inr e ↦ rw e (record { trimmed = h; nonempty = e })
]

pub trimmed_or_none-HasContent : (host : Host) (v : Value) → HasContent (trimmed_or_none host v)
unfolding trimmed_or_none
trimmed_or_none-HasContent host null = tt
trimmed_or_none-HasContent host _ = or_none-HasContent _ (strip_idem _)

pub resolve_optional-HasContent :
    (host : Host) (conf : Dict) (field_name : String) (env_name : Option String)
    → HasContent (resolve_optional host conf field_name env_name)
unfolding resolve_optional
resolve_optional-HasContent host conf field_name env_name =
    trimmed_or_none-HasContent host (candidate host conf field_name env_name)

abbrev pub IsTruthy : Dict → String → Type 0
IsTruthy conf f = truthy (get conf f) ≡ true

refuse_missing_lem : (fs : List String) → Ensures (λ _. fs ≡ []) IsValueError (refuse_missing fs)
refuse_missing_lem [] = returns refl
refuse_missing_lem (f ∷ fs) = raises tt

absent_fields-eq-nil :
    (conf : Dict) (fs : List String) → absent_fields conf fs ≡ [] → All (IsTruthy conf) fs
absent_fields-eq-nil conf [] h = tt
absent_fields-eq-nil conf (f ∷ fs) h = elim (Bool-cases (truthy (get conf f))) [
  | inl e ↦ (e, absent_fields-eq-nil conf fs (rw e at h))
  | inr e ↦ absurd (cc (rw e at h))
]

pub absent_fields-All :
    (conf : Dict) (fs : List String) → All (IsTruthy conf) fs → absent_fields conf fs ≡ []
absent_fields-All conf [] h = refl
absent_fields-All conf (f ∷ fs) h = rw h.0 (absent_fields-All conf fs h.1)

pub require_fields_lem :
    (conf : Dict) (fs : List String)
    → Ensures (λ _. All (IsTruthy conf) fs) IsValueError (require_fields conf fs)
unfolding require_fields
require_fields_lem conf fs = weaken (refuse_missing_lem (absent_fields conf fs))
  where
    weaken :
        {r : Result (Unit {0})}
        → Ensures (λ _. absent_fields conf fs ≡ []) IsValueError r
        → Ensures (λ _. All (IsTruthy conf) fs) IsValueError r
    weaken (returns e) = returns (absent_fields-eq-nil conf fs e)
    weaken (raises q) = raises q

-- A truthy value stands in the dictionary.
pub lookup_of_truthy :
    (conf : Dict) (f : String)
    → IsTruthy conf f
    → (v : Value) × (lookup f conf ≡ some v) × (truthy v ≡ true)
unfolding get
lookup_of_truthy conf f h = go (lookup f conf) refl
  where
    go :
        (o : Option Value)
        → lookup f conf ≡ o
        → (v : Value) × (lookup f conf ≡ some v) × (truthy v ≡ true)
    go none e = absurd (cc (rw e at h))
    go (some v) e = (v, e, rw e at h)

-- The field has the text of its own value in the configuration, which counts as true.
pub record IsGiven (host : Host) (conf : Dict) (f : String) (s : String) : Type 0 where
  pub value : Value
  pub found : lookup f conf ≡ some value
  pub truth : truthy value ≡ true
  pub shown : s ≡ str host value

pub resolve_required_complete :
    {host : Host} {conf : Dict} {field_name : String} {env_name : Option String} {s : String}
    → IsResolved host conf field_name env_name s
    → resolve_required host conf field_name env_name ≡ ok s
unfolding resolve_required
resolve_required_complete {host} {conf} {field_name} {env_name} h =
    let e : str_eq (strip (str host (candidate host conf field_name env_name))) "" ≡ false =
      rw (← h.source) h.content.nonempty in
    rw (h.given, e) (ap ok (sym h.source))

pub require_fields_complete :
    (conf : Dict) (fs : List String) → All (IsTruthy conf) fs → require_fields conf fs ≡ ok tt
unfolding require_fields
require_fields_complete conf fs h = rw (absent_fields-All conf fs h)

pub IsTruthy-of_IsGiven :
    {host : Host} {conf : Dict} {f s : String} → IsGiven host conf f s → IsTruthy conf f
unfolding get
IsTruthy-of_IsGiven h = rw h.found h.truth
