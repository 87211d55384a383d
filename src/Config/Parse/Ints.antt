-- ===== src/Config/Parse/Ints.antt =====
-- `_parse_positive_ints` of ingestion_airflow/config.py.
use ingestion_airflow.Common.{
  ℕ, String, ◌≡◌, refl, ap, ◌↔◌, inl, inr, true, false, Option, none, some, List, [], ◌∷◌, str_eq,
  eq_iff, map, if◌then◌else◌, Bool-cases,
}
use ingestion_airflow.Py.Exc.Reason.{◌≫◌}
use ingestion_airflow.Py.Exc.{
  Kind, value_error, type_error, overflow_error, Result, ok, raised, Ensures, returns, raises,
  Ensures-ok,
}
use ingestion_airflow.Py.Text.{join}
use ingestion_airflow.Py.Int.{
  ℤ, pos, IsPositive, IsPositive-of_test, is_not_positive, not-is_not_positive, int_of_text,
}
use ingestion_airflow.Py.Value.{
  Host, Value, bool, int, float, text, int_of, parsed_int, finite, inf, nan,
}
use ingestion_airflow.Py.Dict.{DictOf, Dict, lookup, subscript}
use ingestion_airflow.Config.Parse.{
  int_or, read_ints, must_be_integers, or_must_be_integers, refuse_invalid, invalid_ints,
  parse_positive_ints,
}
use ingestion_airflow.Config.Parse.Texts.{IsConfigError}

abbrev pub IsIntError : Kind → Type 0
IsIntError value_error = Unit
IsIntError type_error = Unit
IsIntError overflow_error = Unit
IsIntError _ = ⊥

parsed_int_lem :
    (host : Host) (s : String) (o : Option ℤ)
    → Ensures (λ _. Unit {0}) IsIntError (parsed_int host s o)
parsed_int_lem host s (some z) = returns tt
parsed_int_lem host s none = raises tt

pub int_of_kinds : (host : Host) (v : Value) → Ensures (λ _. Unit {0}) IsIntError (int_of host v)
unfolding int_of
int_of_kinds host (bool true) = returns tt
int_of_kinds host (bool false) = returns tt
int_of_kinds host (int z) = returns tt
int_of_kinds host (float (finite s m (pos e))) = returns tt
int_of_kinds host (float (finite s m (ℤ.negsuc e))) = returns tt
int_of_kinds host (float (inf s)) = raises tt
int_of_kinds host (float nan) = raises tt
int_of_kinds host (text s) = parsed_int_lem host s (int_of_text host.wide_digit s)
int_of_kinds host _ = raises tt

-- The parsed entries: for each default the integer that its field or the default denotes.
abbrev pub IsRead : Host → Dict → DictOf ℕ → DictOf ℤ → Type 0
IsRead host conf [] [] = Unit
IsRead host conf ((f, d) ∷ defaults) ((g, z) ∷ parsed) =
    (f ≡ g) × (int_of host (int_or (lookup f conf) d) ≡ ok z) × IsRead host conf defaults parsed
IsRead host conf _ _ = ⊥

pub int_of-Ensures :
    (host : Host) (v : Value) → Ensures (λ z. int_of host v ≡ ok z) IsIntError (int_of host v)
int_of-Ensures host v = go (int_of host v) refl (int_of_kinds host v)
  where
    go :
        (r : Result ℤ)
        → int_of host v ≡ r
        → Ensures (λ _. Unit {0}) IsIntError r
        → Ensures (λ z. int_of host v ≡ ok z) IsIntError r
    go (ok z) e (returns _) = returns e
    go (raised x) e (raises q) = raises q

read_ints_lem :
    (host : Host) (conf : Dict) (defaults : DictOf ℕ)
    → Ensures (IsRead host conf defaults) IsIntError (read_ints host conf defaults)
unfolding read_ints
read_ints_lem host conf [] = returns tt
read_ints_lem host conf ((f, d) ∷ defaults) =
    int_of-Ensures host (int_or (lookup f conf) d)
    ≫ (λ z hz. read_ints_lem host conf defaults ≫ (λ parsed h. returns (refl, hz, h)))

or_must_be_integers_lem :
    {P : DictOf ℤ → Type 0} (names : String) {r : Result (DictOf ℤ)}
    → Ensures P IsIntError r
    → Ensures P IsConfigError (or_must_be_integers names r)
or_must_be_integers_lem {P} names (returns p) = returns p
or_must_be_integers_lem {P} names (raises {e = x} q) = by_kind x.kind x.message q
  where
    by_kind :
        (k : Kind) (m : String)
        → IsIntError k
        → Ensures P IsConfigError (must_be_integers names k m)
    by_kind value_error m q = raises tt
    by_kind type_error m q = raises tt
    by_kind overflow_error m q = raises tt
    by_kind _ m q = absurd q

-- Every parsed value is positive.
abbrev pub AllPositive : DictOf ℤ → Type 0
AllPositive [] = Unit
AllPositive ((f, z) ∷ parsed) = IsPositive z × AllPositive parsed

invalid_ints-eq-nil : (parsed : DictOf ℤ) → invalid_ints parsed ≡ [] → AllPositive parsed
invalid_ints-eq-nil [] h = tt
invalid_ints-eq-nil ((f, z) ∷ parsed) h = elim (Bool-cases (is_not_positive z)) [
  | inl e ↦ absurd (cc (rw e at h))
  | inr e ↦ (IsPositive-of_test z e, invalid_ints-eq-nil parsed (rw e at h))
]

pub record IsParsed (host : Host) (conf : Dict) (defaults : DictOf ℕ) (parsed : DictOf ℤ)
    : Type 0 where
  pub read : IsRead host conf defaults parsed
  pub positive : AllPositive parsed

refuse_invalid_lem :
    (host : Host) (conf : Dict) (defaults : DictOf ℕ) (parsed : DictOf ℤ)
    → IsRead host conf defaults parsed
    → (names : List String) → invalid_ints parsed ≡ names
    → Ensures (IsParsed host conf defaults) IsConfigError (refuse_invalid parsed names)
refuse_invalid_lem host conf defaults parsed h [] e =
    returns (record { read = h; positive = invalid_ints-eq-nil parsed e })
refuse_invalid_lem host conf defaults parsed h (f ∷ fs) e = raises tt

pub parse_positive_ints_lem :
    (host : Host) (conf : Dict) (defaults : DictOf ℕ)
    → Ensures (IsParsed host conf defaults) IsConfigError (parse_positive_ints host conf defaults)
unfolding parse_positive_ints
parse_positive_ints_lem host conf defaults =
    or_must_be_integers_lem names (read_ints_lem host conf defaults)
    ≫ (λ parsed h. refuse_invalid_lem host conf defaults parsed h (invalid_ints parsed) refl)
  where
    names : String
    names = join ", " (map (λ (entry : String × ℕ). entry.0) defaults)

-- The integer that a field or its default denotes, and it is positive.
pub record IsSize (host : Host) (conf : Dict) (f : String) (default_value : ℕ) (z : ℤ)
    : Type 0 where
  pub read : int_of host (int_or (lookup f conf) default_value) ≡ ok z
  pub positive : IsPositive z

-- The default of a field in the table, 0 for none.
abbrev pub default_of : DictOf ℕ → String → Option ℕ
default_of [] f = none
default_of ((g, d) ∷ defaults) f = if str_eq g f then some d else default_of defaults f

-- Reading an entry of the parsed table never raises KeyError.
pub subscript-IsSize :
    (host : Host) (conf : Dict) (defaults : DictOf ℕ) (parsed : DictOf ℤ)
    → IsParsed host conf defaults parsed
    → (f : String) (d : ℕ) → default_of defaults f ≡ some d
    → Ensures (IsSize host conf f d) IsConfigError (subscript parsed f)
unfolding subscript
subscript-IsSize host conf [] parsed h f d e = absurd (cc)
subscript-IsSize host conf ((g, c) ∷ defaults) [] h f d e = absurd h.read
subscript-IsSize host conf ((g, c) ∷ defaults) ((k, z) ∷ parsed) h f d e =
    rw (← h.read.0) (elim (Bool-cases (str_eq g f)) [
      | inl same ↦
          let g_is_f : g ≡ f = (eq_iff g f).0 same in
          let c_is_d : c ≡ d = cc (rw same at e) in
          rw same
            (returns (record { read = rw (← g_is_f, ← c_is_d) h.read.1; positive = h.positive.0 }))
      | inr other ↦ rw other (
          subscript-IsSize host conf defaults parsed
            (record { read = h.read.2; positive = h.positive.1 }) f d (rw other at e))
    ])

read_ints_complete :
    (host : Host) (conf : Dict) (defaults : DictOf ℕ) (parsed : DictOf ℤ)
    → IsRead host conf defaults parsed
    → read_ints host conf defaults ≡ ok parsed
unfolding read_ints
read_ints_complete host conf [] [] h = refl
read_ints_complete host conf [] (e ∷ parsed) h = absurd h
read_ints_complete host conf (e ∷ defaults) [] h = absurd h
read_ints_complete host conf ((f, d) ∷ defaults) ((g, z) ∷ parsed) h =
    rw (h.1, read_ints_complete host conf defaults parsed h.2) (ap (λ k. ok ((k, z) ∷ parsed)) h.0)

invalid_ints_complete : (parsed : DictOf ℤ) → AllPositive parsed → invalid_ints parsed ≡ []
invalid_ints_complete [] h = refl
invalid_ints_complete ((f, z) ∷ parsed) h =
    rw (not-is_not_positive z h.0) (invalid_ints_complete parsed h.1)

pub parse_positive_ints_complete :
    (host : Host) (conf : Dict) (defaults : DictOf ℕ) (parsed : DictOf ℤ)
    → IsParsed host conf defaults parsed
    → parse_positive_ints host conf defaults ≡ ok parsed
unfolding parse_positive_ints
parse_positive_ints_complete host conf defaults parsed h =
    rw (read_ints_complete host conf defaults parsed h.read)
      (rw (invalid_ints_complete parsed h.positive))

-- `_parse_positive_ints` returns exactly the table that has, for each field in order, the integer
-- that the field's value or its default denotes, where all of these are positive.
pub parse_positive_ints_iff :
    (host : Host) (conf : Dict) (defaults : DictOf ℕ) (parsed : DictOf ℤ)
    → (parse_positive_ints host conf defaults ≡ ok parsed) ↔ IsParsed host conf defaults parsed
parse_positive_ints_iff host conf defaults parsed = (
  Ensures-ok (parse_positive_ints_lem host conf defaults) parsed,
  parse_positive_ints_complete host conf defaults parsed,
)

int_of_text-kinds :
    (host : Host) (s : String) (o : Option ℤ)
    → Ensures (λ _. Unit {0}) IsConfigError (parsed_int host s o)
int_of_text-kinds host s none = raises tt
int_of_text-kinds host s (some z) = returns tt

-- `int` of a text raises nothing but ValueError.
pub int_of_text-Ensures :
    (host : Host) (s : String)
    → Ensures (λ z. int_of host (text s) ≡ ok z) IsConfigError (int_of host (text s))
unfolding int_of
int_of_text-Ensures host s = go _ refl (int_of_text-kinds host s (int_of_text host.wide_digit s))
  where
    go :
        (r : Result ℤ)
        → parsed_int host s (int_of_text host.wide_digit s) ≡ r
        → Ensures (λ _. Unit {0}) IsConfigError r
        → Ensures (λ z. parsed_int host s (int_of_text host.wide_digit s) ≡ ok z) IsConfigError r
    go (ok z) e (returns _) = returns e
    go (raised x) e (raises q) = raises q
