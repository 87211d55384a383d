-- ===== src/Config/Steps/Laws.antt =====
-- What the common steps of the `from_dagrun_conf` methods return, in both directions.
use ingestion_airflow.Common.{
  String, ◌≡◌, refl, sym, ap, ◌⊎◌, inl, inr, Bool, true, false, not, ◌&&◌, Option, none, some, [],
  arith, if◌then◌else◌,
}
use ingestion_airflow.Py.Exc.Reason.{◌≫◌}
use ingestion_airflow.Py.Exc.{Kind, value_error, Result, ok, Ensures, returns, raises}
use ingestion_airflow.Py.Text.Strip.{strip, strip_idem}
use ingestion_airflow.Py.Value.{Host, Value, text}
use ingestion_airflow.Py.Dict.{Dict, lookup, subscript}
use ingestion_airflow.Config.Parse.{value_or, is_given, resolve_optional}
use ingestion_airflow.Config.Parse.Texts.{
  IsValueError, IsConfigError, IsContent, IsResolved, resolve_required_lem,
  resolve_required_complete, IsTruthy, IsGiven, lookup_of_truthy,
}
use ingestion_airflow.Config.Parse.Flags.{Denotes, parse_bool_lem, parse_bool_iff}
use ingestion_airflow.Config.Steps.{
  subscript_text, parse_flag, resolve_audit_dsn, require_admin_dsn, refuse_delta_object_key,
  require_parent_run_id,
}

relax_kind : (k : Kind) → IsValueError k → IsConfigError k
relax_kind value_error q = tt
relax_kind _ q = absurd q

pub relax {ℓ} :
    {A : Type ℓ} {P : A → Type 0} {r : Result A}
    → Ensures P IsValueError r
    → Ensures P IsConfigError r
relax (returns p) = returns p
relax (raises {e = x} q) = raises (relax_kind x.kind q)

-- A test that guards a return.
pub guarded {ℓ} :
    {A : Type ℓ} {P : A → Type 0} (b : Bool) (a : A) (m : Result A)
    → (b ≡ true → P a)
    → Ensures P IsValueError m
    → Ensures P IsValueError (if b then ok a else m)
guarded true a m p h = returns (p refl)
guarded false a m p h = h

pub guarded_not {ℓ} :
    {A : Type ℓ} {P : A → Type 0} (b : Bool) (a : A) (m : Result A)
    → (b ≡ false → P a)
    → Ensures P IsValueError m
    → Ensures P IsValueError (if b then m else ok a)
guarded_not true a m p h = h
guarded_not false a m p h = returns (p refl)

module _ (host : Host) (conf : Dict) where
  pub subscript_text_lem :
      (f : String)
      → IsTruthy conf f
      → Ensures (IsGiven host conf f) IsValueError (subscript_text host conf f)
  unfolding subscript_text subscript
  subscript_text_lem f h =
      let (v, e, t) = lookup_of_truthy conf f h in
      rw e (returns (record { value = v; found = e; truth = t; shown = refl }))

  pub subscript_text_complete :
      {f s : String} → IsGiven host conf f s → subscript_text host conf f ≡ ok s
  unfolding subscript_text subscript
  subscript_text_complete g = rw g.found (ap ok (sym g.shown))

-- The value that a flag is parsed from.
abbrev pub flag_value : Dict → String → String → Value
flag_value conf f d = value_or (lookup f conf) (text d)

pub parse_flag_lem :
    (conf : Dict) (f d : String)
    → Ensures (Denotes (flag_value conf f d)) IsValueError (parse_flag conf f d)
unfolding parse_flag
parse_flag_lem conf f d = parse_bool_lem (flag_value conf f d) f

pub parse_flag_complete :
    (conf : Dict) (f d : String) {b : Bool}
    → Denotes (flag_value conf f d) b
    → parse_flag conf f d ≡ ok b
unfolding parse_flag
parse_flag_complete conf f d {b} h = (parse_bool_iff (flag_value conf f d) f b).1 h

abbrev pub IsAuditDsn : Host → String → Type 0
IsAuditDsn host = IsResolved host [] "AUDIT_DATABASE_DSN" (some "AUDIT_DATABASE_DSN")

pub resolve_audit_dsn_lem :
    (host : Host) → Ensures (IsAuditDsn host) IsValueError (resolve_audit_dsn host)
unfolding resolve_audit_dsn
resolve_audit_dsn_lem host =
    resolve_required_lem host [] "AUDIT_DATABASE_DSN" (some "AUDIT_DATABASE_DSN")

pub resolve_audit_dsn_complete :
    {host : Host} {s : String} → IsAuditDsn host s → resolve_audit_dsn host ≡ ok s
unfolding resolve_audit_dsn
resolve_audit_dsn_complete h = resolve_required_complete h

-- The source is not set up, or there is a DSN to set it up with.
abbrev pub HasAdmin : Bool → Option String → Type 0
HasAdmin auto_setup admin = (auto_setup ≡ false) ⊎ (is_given admin ≡ true)

pub require_admin_dsn_lem :
    (auto_setup : Bool) (admin : Option String)
    → Ensures (λ _. HasAdmin auto_setup admin) IsValueError (require_admin_dsn auto_setup admin)
unfolding require_admin_dsn
require_admin_dsn_lem auto_setup admin =
    guarded_not (auto_setup && not (is_given admin)) tt _ (λ e. ground arith) (raises tt)

pub require_admin_dsn_complete :
    (auto_setup : Bool) (admin : Option String)
    → HasAdmin auto_setup admin
    → require_admin_dsn auto_setup admin ≡ ok tt
unfolding require_admin_dsn
require_admin_dsn_complete auto_setup admin (inl e) = rw e
require_admin_dsn_complete true admin (inr e) = rw e
require_admin_dsn_complete false admin (inr e) = refl

abbrev pub HasNoDeltaKey : Host → Dict → Type 0
HasNoDeltaKey host conf = is_given (resolve_optional host conf "delta_object_key" none) ≡ false

pub refuse_delta_object_key_lem :
    (host : Host) (conf : Dict)
    → Ensures (λ _. HasNoDeltaKey host conf) IsValueError (refuse_delta_object_key host conf)
unfolding refuse_delta_object_key
refuse_delta_object_key_lem host conf = guarded_not _ tt _ (λ e. e) (raises tt)

pub refuse_delta_object_key_complete :
    (host : Host) (conf : Dict)
    → HasNoDeltaKey host conf
    → refuse_delta_object_key host conf ≡ ok tt
unfolding refuse_delta_object_key
refuse_delta_object_key_complete host conf h = rw h

-- The trimmed text of the field, which is not empty.
pub record IsStripped (host : Host) (conf : Dict) (f s : String) : Type 0 where
  pub original : String
  pub given : IsGiven host conf f original
  pub stripped : s ≡ strip original

pub record IsParentRunId (host : Host) (conf : Dict) (s : String) : Type 0 where
  pub stripped : IsStripped host conf "parent_run_id" s
  pub content : IsContent s

module _ (host : Host) (conf : Dict) where
  pub require_parent_run_id_lem :
      IsTruthy conf "parent_run_id"
      → Ensures (IsParentRunId host conf) IsValueError (require_parent_run_id host conf)
  unfolding require_parent_run_id
  require_parent_run_id_lem h = subscript_text_lem host conf "parent_run_id" h ≫ (λ t g.
      guarded_not _ (strip t) _
        (λ e. record {
          stripped = record { original = t; given = g; stripped = refl };
          content = record { trimmed = strip_idem t; nonempty = e };
        })
        (raises tt))

  pub require_parent_run_id_complete :
      {s : String} → IsParentRunId host conf s → require_parent_run_id host conf ≡ ok s
  unfolding require_parent_run_id
  require_parent_run_id_complete h =
      rw (subscript_text_complete host conf h.stripped.given)
        (rw (← h.stripped.stripped) (rw h.content.nonempty))
