-- ===== src/Config/Parse/Fields.antt =====
-- Where the text of a field comes from, for `_resolve_optional` and `_resolve_required` of
-- ingestion_airflow/config.py.
use ingestion_airflow.Common.{
  String, ◌≡◌, ◌≢◌, ◌↔◌, refl, sym, ◌∙◌, ◌⊎◌, inl, inr, true, false, ◌||◌, Option, none, some,
  arith, str_eq, eq_iff, Bool-cases,
}
use ingestion_airflow.Py.Exc.{ok}
use ingestion_airflow.Py.Text.Strip.{strip}
use ingestion_airflow.Py.Value.{Host, Value, null, bool, int, float, text, list, dict, is_null, str}
use ingestion_airflow.Py.Dict.{Dict, get}
use ingestion_airflow.Config.Parse.{
  env_value, or_env, candidate, or_none, trimmed_or_none, resolve_required, resolve_optional,
}

-- The variable of the environment has the value.
abbrev pub IsInEnv : Host → Option String → Value → Type 0
IsInEnv host none v = ⊥
IsInEnv host (some name) v = (name ≢ "") × ((s : String) × (host.env name ≡ some s) × (v ≡ text s))

-- The value is that of the field, or, where this is missing or null, that of the environment.
abbrev pub IsRead : Host → Dict → String → Option String → Value → Type 0
IsRead host conf field_name env_name v =
    (v ≢ null)
    × ((get conf field_name ≡ v) ⊎ ((get conf field_name ≡ null) × IsInEnv host env_name v))

-- The text is that value's, trimmed, and it is not empty.
abbrev pub IsFieldText : Host → Dict → String → Option String → String → Type 0
IsFieldText host conf field_name env_name s =
    (s ≢ "") × ((v : Value) × IsRead host conf field_name env_name v × (s ≡ strip (str host v)))

from_env :
    (host : Host) (env_name : Option String) (v : Value)
    → v ≢ null
    → or_env host env_name null ≡ v
    → IsInEnv host env_name v
from_env host none v given h = absurd (given (sym h))
from_env host (some name) v given h = elim (Bool-cases (str_eq name "")) [
  | inl e ↦ absurd (given (sym (rw e at h)))
  | inr e ↦ (
    (λ k. let t : str_eq name "" ≡ true = (eq_iff name "").1 k in cc),
    go (host.env name) refl (rw e at h),
  )
]
  where
    go :
        (o : Option String)
        → host.env name ≡ o
        → env_value o ≡ v
        → (s : String) × (host.env name ≡ some s) × (v ≡ text s)
    go none e k = absurd (given (sym k))
    go (some s) e k = (s, e, sym k)

to_env :
    (host : Host) (env_name : Option String) (v : Value)
    → IsInEnv host env_name v
    → or_env host env_name null ≡ v
to_env host none v h = absurd h
to_env host (some name) v h =
    let named : str_eq name "" ≡ false = ground (arith, eq_iff name "") in
    rw named (rw h.1.1 (sym h.1.2))

-- A value of the field itself is taken as it is.
or_env_given :
    (host : Host) (env_name : Option String) (v : Value) → v ≢ null → or_env host env_name v ≡ v
or_env_given host none v given = refl
or_env_given host (some n) null given = absurd (given refl)
or_env_given host (some n) (bool b) given = refl
or_env_given host (some n) (int b) given = refl
or_env_given host (some n) (float b) given = refl
or_env_given host (some n) (text b) given = refl
or_env_given host (some n) (list b) given = refl
or_env_given host (some n) (dict b) given = refl

null_or : (v : Value) → (v ≡ null) ⊎ (v ≢ null)
null_or null = inl refl
null_or (bool b) = inr (λ e. cc)
null_or (int b) = inr (λ e. cc)
null_or (float b) = inr (λ e. cc)
null_or (text b) = inr (λ e. cc)
null_or (list b) = inr (λ e. cc)
null_or (dict b) = inr (λ e. cc)

-- The trimmed text of a value, where it is not empty.
abbrev HasText : Host → Value → String → Type 0
HasText host v s = (v ≢ null) × (s ≢ "") × (s ≡ strip (str host v))

not_empty : (s : String) → s ≢ "" → str_eq s "" ≡ false
not_empty s h = elim (Bool-cases (str_eq s "")) [
  | inl e ↦ absurd (h ((eq_iff s "").0 e))
  | inr e ↦ e
]

is_empty-false : (s : String) → str_eq s "" ≡ false → s ≢ ""
is_empty-false s e k = let t : str_eq s "" ≡ true = (eq_iff s "").1 k in cc

or_none_only : (t s : String) → or_none t ≡ some s → (s ≢ "") × (s ≡ t)
or_none_only t s h = elim (Bool-cases (str_eq t "")) [
  | inl e ↦ absurd (cc (rw e at h))
  | inr e ↦ let same : t ≡ s = cc (rw e at h) in rw (← same) (is_empty-false t e, refl)
]

has_text :
    (host : Host) (v : Value) (s : String)
    → v ≢ null
    → (s ≢ "") × (s ≡ strip (str host v))
    → HasText host v s
has_text host v s given h = (given, h.0, h.1)

trimmed_only :
    (host : Host) (v : Value) (s : String) → trimmed_or_none host v ≡ some s → HasText host v s
unfolding trimmed_or_none
trimmed_only host null s h = absurd (cc)
trimmed_only host (bool b) s h = has_text host _ s (λ e. cc) (or_none_only _ s h)
trimmed_only host (int b) s h = has_text host _ s (λ e. cc) (or_none_only _ s h)
trimmed_only host (float b) s h = has_text host _ s (λ e. cc) (or_none_only _ s h)
trimmed_only host (text b) s h = has_text host _ s (λ e. cc) (or_none_only _ s h)
trimmed_only host (list b) s h = has_text host _ s (λ e. cc) (or_none_only _ s h)
trimmed_only host (dict b) s h = has_text host _ s (λ e. cc) (or_none_only _ s h)

trimmed_all :
    (host : Host) (v : Value) (s : String) → HasText host v s → trimmed_or_none host v ≡ some s
unfolding trimmed_or_none
trimmed_all host null s h = absurd (h.0 refl)
trimmed_all host (bool b) s h = rw (← h.2) (rw (not_empty s h.1))
trimmed_all host (int b) s h = rw (← h.2) (rw (not_empty s h.1))
trimmed_all host (float b) s h = rw (← h.2) (rw (not_empty s h.1))
trimmed_all host (text b) s h = rw (← h.2) (rw (not_empty s h.1))
trimmed_all host (list b) s h = rw (← h.2) (rw (not_empty s h.1))
trimmed_all host (dict b) s h = rw (← h.2) (rw (not_empty s h.1))

null_false : (v : Value) → is_null v ≡ false → v ≢ null
null_false v h e = let t : is_null v ≡ true = rw e in cc

false_null : (v : Value) → v ≢ null → is_null v ≡ false
false_null v h = elim (Bool-cases (is_null v)) [ inl e ↦ absurd (h (null_of v e)) | inr e ↦ e ]
  where
    null_of : (v : Value) → is_null v ≡ true → v ≡ null
    null_of null e = refl
    null_of (bool b) e = absurd (cc)
    null_of (int b) e = absurd (cc)
    null_of (float b) e = absurd (cc)
    null_of (text b) e = absurd (cc)
    null_of (list b) e = absurd (cc)
    null_of (dict b) e = absurd (cc)

module _ (host : Host) (conf : Dict) (field_name : String) (env_name : Option String) where
  candidate-IsRead :
      (v : Value)
      → v ≢ null
      → candidate host conf field_name env_name ≡ v
      → IsRead host conf field_name env_name v
  unfolding candidate
  candidate-IsRead v given h = (
    given,
    elim (null_or (get conf field_name)) [
      | inl e ↦ inr (e, from_env host env_name v given (rw e at h))
      | inr found ↦ inl (sym (or_env_given host env_name (get conf field_name) found) ∙ h)
    ],
  )

  read-candidate :
      (v : Value)
      → IsRead host conf field_name env_name v
      → candidate host conf field_name env_name ≡ v
  unfolding candidate
  read-candidate v (given, inl e) = rw e (or_env_given host env_name v given)
  read-candidate v (given, inr (e, h)) = rw e (to_env host env_name v h)

  read_of :
      (s : String)
      → HasText host (candidate host conf field_name env_name) s
      → IsFieldText host conf field_name env_name s
  read_of s h = (
    h.1,
    (
      candidate host conf field_name env_name,
      candidate-IsRead (candidate host conf field_name env_name) h.0 refl,
      h.2,
    ),
  )

  text_of :
      (s : String)
      → IsFieldText host conf field_name env_name s
      → HasText host (candidate host conf field_name env_name) s
  text_of s h = rw (read-candidate h.1.0 h.1.1) (h.1.1.0, h.0, h.1.2)

  required_only :
      (s : String)
      → resolve_required host conf field_name env_name ≡ ok s
      → HasText host (candidate host conf field_name env_name) s
  unfolding resolve_required
  required_only s h = elim (Bool-cases (is_null value || str_eq shown "")) [
    | inl e ↦ absurd (cc (rw e at h))
    | inr e ↦
        let same : shown ≡ s = cc (rw e at h) in
        rw (← same) (null_false value (ground arith), is_empty-false shown (ground arith), refl)
  ]
    where
      value : Value
      value = candidate host conf field_name env_name

      shown : String
      shown = strip (str host value)

  required_all :
      (s : String)
      → HasText host (candidate host conf field_name env_name) s
      → resolve_required host conf field_name env_name ≡ ok s
  unfolding resolve_required
  required_all s h =
      rw (false_null (candidate host conf field_name env_name) h.0)
        (rw (← h.2) (rw (not_empty s h.1)))

  -- `_resolve_optional` and `_resolve_required` return exactly the trimmed text, if it is not empty,
  -- of the field's value in the configuration of the run, or, where that is missing or null, of the
  -- environment's: a blank value of the configuration does not give way to the environment.
  pub IsFieldText-iff :
      (s : String)
      → ((resolve_optional host conf field_name env_name ≡ some s)
          ↔ IsFieldText host conf field_name env_name s)
        × ((resolve_required host conf field_name env_name ≡ ok s)
            ↔ IsFieldText host conf field_name env_name s)
  unfolding resolve_optional
  IsFieldText-iff s = (
    (
      λ h. read_of s (trimmed_only host (candidate host conf field_name env_name) s h),
      λ h. trimmed_all host (candidate host conf field_name env_name) s (text_of s h),
    ),
    (λ h. read_of s (required_only s h), λ h. required_all s (text_of s h)),
  )
