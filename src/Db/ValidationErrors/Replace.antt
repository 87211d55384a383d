-- ===== src/Db/ValidationErrors/Replace.antt =====
-- What the table of validation errors holds after the rows of a stage are replaced.
use mathlib.Core.List.{append-nil}
use ingestion_airflow.Common.{
  ℕ, suc, String, ◌≡◌, ◌≢◌, ◌⊎◌, ◌==◌, ◌&&◌, refl, ap, Bool, true, false, Option, List, [], ◌∷◌,
  ◌++◌, arith, str_eq, eq_iff, keep, length, All, Bool-cases, inl, inr,
}
use ingestion_airflow.Py.Exc.{Result, ok, raised, Ensures, returns, raises, Ensures-ok}
use ingestion_airflow.Py.Exc.Reason.{◌≫◌}
use ingestion_airflow.Py.Int.{ℤ}
use ingestion_airflow.Py.Value.{Host}
use ingestion_airflow.Py.Dict.{Dict, get}
use ingestion_airflow.Db.Table.{delete_where}
use ingestion_airflow.Db.Tables.{ValidationErrorAudit, AuditDb, Formats, parse_run_id}
use ingestion_airflow.Db.ValidationErrors.{
  ErrorContext, coerce_optional_int, normalize_error, normalize_errors, is_error_of, replace_rows,
  replace_validation_errors_for_stage,
}

-- The rows of a stage.
unfoldable pub errors_of : ℕ → String → AuditDb → List ValidationErrorAudit
errors_of u stage_name db = keep (is_error_of u stage_name) db.validation_error_audit

module _ {ℓ} {A : Type ℓ} (p : A → Bool) where
  keep-append : (xs ys : List A) → keep p (xs ++ ys) ≡ keep p xs ++ keep p ys
  keep-append [] ys = refl
  keep-append (x ∷ xs) ys = elim (Bool-cases (p x)) [
    | inl e ↦ rw e (rw (keep-append xs ys))
    | inr e ↦ rw e (keep-append xs ys)
  ]

  keep-delete_where : (xs : List A) → keep p (delete_where p xs) ≡ []
  unfolding delete_where
  keep-delete_where [] = refl
  keep-delete_where (x ∷ xs) = elim (Bool-cases (p x)) [
    | inl e ↦ rw e (keep-delete_where xs)
    | inr e ↦ rw e (rw e (keep-delete_where xs))
  ]

  keep-All : (xs : List A) → All (λ x. p x ≡ true) xs → keep p xs ≡ xs
  keep-All [] h = refl
  keep-All (x ∷ xs) h = rw h.0 (rw (keep-All xs h.1))

module _ {ℓ} {A : Type ℓ} (q p : A → Bool) where
  keep-delete_where_ne :
      ((x : A) → p x ≡ true → q x ≡ false) → (xs : List A) → keep q (delete_where p xs) ≡ keep q xs
  unfolding delete_where
  keep-delete_where_ne h [] = refl
  keep-delete_where_ne h (x ∷ xs) = elim (Bool-cases (p x)) [
    | inl e ↦ rw (e, h x e) (keep-delete_where_ne h xs)
    | inr e ↦ elim (Bool-cases (q x)) [
      | inl k ↦ rw (e, k) (rw (keep-delete_where_ne h xs))
      | inr k ↦ rw (e, k) (keep-delete_where_ne h xs)
    ]
  ]

  keep_none : (xs : List A) → All (λ x. q x ≡ false) xs → keep q xs ≡ []
  keep_none [] h = refl
  keep_none (x ∷ xs) h = rw h.0 (keep_none xs h.1)

-- A normalized row belongs to the run and the stage.
abbrev Belongs : ErrorContext → ValidationErrorAudit → Type 0
Belongs c r = (r.run_id ≡ c.run_uuid) × (r.stage_name ≡ c.stage_name)

normalize_error-Belongs :
    (host : Host) (c : ErrorContext) (id : ℕ) (e : Dict) (r : ValidationErrorAudit)
    → normalize_error host c id e ≡ ok r
    → Belongs c r
unfolding normalize_error
normalize_error-Belongs host c id e r h = go (coerce_optional_int host (get e "row_number")) refl
  where
    go : (n : Result (Option ℤ)) → coerce_optional_int host (get e "row_number") ≡ n → Belongs c r
    go (raised x) k = absurd (cc (rw k at h))
    go (ok n) k = ground arith

normalize_errors-Belongs :
    (host : Host) (c : ErrorContext) (fresh : ℕ → ℕ) (k : ℕ) (errors : List Dict)
    → Ensures
        (λ rows. All (Belongs c) rows × (length rows ≡ length errors))
        (λ _. Unit {0})
        (normalize_errors host c fresh k errors)
unfolding normalize_errors
normalize_errors-Belongs host c fresh k [] = returns (tt, refl)
normalize_errors-Belongs host c fresh k (e ∷ errors) =
    one (normalize_error host c (fresh k) e) refl ≫ λ row belongs.
    normalize_errors-Belongs host c fresh (suc k) errors ≫ λ rows h.
    returns ((belongs, h.0), ap suc h.1)
  where
    one :
        (r : Result ValidationErrorAudit)
        → normalize_error host c (fresh k) e ≡ r
        → Ensures (Belongs c) (λ _. Unit {0}) r
    one (ok row) q = returns (normalize_error-Belongs host c (fresh k) e row q)
    one (raised x) q = raises tt

Belongs-is_error_of :
    (c : ErrorContext) (rows : List ValidationErrorAudit)
    → All (Belongs c) rows
    → All (λ r. is_error_of c.run_uuid c.stage_name r ≡ true) rows
Belongs-is_error_of c [] h = tt
Belongs-is_error_of c (r ∷ rows) h =
    (ground (arith, eq_iff r.stage_name c.stage_name), Belongs-is_error_of c rows h.1)

-- Another stage of the run, or a stage of another run.
abbrev pub IsOtherStage : ℕ → String → ℕ → String → Type 0
IsOtherStage u stage_name v stage = (u ≢ v) ⊎ (str_eq stage_name stage ≡ false)

Belongs-not_other :
    (c : ErrorContext) (v : ℕ) (stage : String) (rows : List ValidationErrorAudit)
    → IsOtherStage c.run_uuid c.stage_name v stage
    → All (Belongs c) rows
    → All (λ r. is_error_of v stage r ≡ false) rows
Belongs-not_other c v stage [] d h = tt
Belongs-not_other c v stage (r ∷ rows) d h =
    (rw h.0.1 (rw h.0.0 (one d)), Belongs-not_other c v stage rows d h.1)
  where
    one :
        IsOtherStage c.run_uuid c.stage_name v stage
        → (c.run_uuid == v && str_eq c.stage_name stage) ≡ false
    one (inl other_run) = ground arith
    one (inr other_stage) = ground arith

module _ (host : Host) (fresh : ℕ → ℕ) (c : ErrorContext) (errors : List Dict)
    (rows : List ValidationErrorAudit) (db : AuditDb)
    (normal : normalize_errors host c fresh 0 errors ≡ ok rows) where
  facts : All (Belongs c) rows × (length rows ≡ length errors)
  facts = Ensures-ok (normalize_errors-Belongs host c fresh 0 errors) rows normal

  replaced_rows : errors_of c.run_uuid c.stage_name (replace_rows c (ok rows) db).1 ≡ rows
  unfolding errors_of
  replaced_rows = rw (keep-append (is_error_of c.run_uuid c.stage_name)) (
      rw (keep-delete_where (is_error_of c.run_uuid c.stage_name) db.validation_error_audit)
        (keep-All (is_error_of c.run_uuid c.stage_name) rows (Belongs-is_error_of c rows facts.0)))

  other_rows :
      (v : ℕ) (stage : String)
      → IsOtherStage c.run_uuid c.stage_name v stage
      → errors_of v stage (replace_rows c (ok rows) db).1 ≡ errors_of v stage db
  unfolding errors_of
  other_rows v stage differ = rw (keep-append (is_error_of v stage)) (
      rw
        (
          keep-delete_where_ne (is_error_of v stage) (is_error_of c.run_uuid c.stage_name)
              (λ r h. not_both differ r h) db.validation_error_audit,
          keep_none (is_error_of v stage) (is_error_of c.run_uuid c.stage_name) rows
              (Belongs-not_other c v stage rows differ facts.0),
        )
        (append-nil _))
    where
      not_both :
          IsOtherStage c.run_uuid c.stage_name v stage
          → (r : ValidationErrorAudit) → is_error_of c.run_uuid c.stage_name r ≡ true
          → is_error_of v stage r ≡ false
      not_both (inl other_run) r h = ground arith
      not_both (inr other_stage) r h = ground (
        arith,
        eq_iff r.stage_name c.stage_name,
        eq_iff r.stage_name stage,
        eq_iff c.stage_name stage,
      )

-- The arguments that a call hands on to each of its rows.
abbrev pub context_of :
    ℕ → ℕ → (pipeline_id strategy run_mode stage_name : String) → Option String → ErrorContext
context_of u now pipeline_id strategy run_mode stage_name error_object_key = record {
  run_uuid = u;
  pipeline_id = pipeline_id;
  strategy = strategy;
  run_mode = run_mode;
  stage_name = stage_name;
  error_object_key = error_object_key;
  now = now;
}

-- Where the run id parses and the errors of a stage can be normalized, replacing them returns how
-- many were given, the table has exactly the normalized rows for the stage, whatever rows of it
-- stood there, and the rows of any other stage of the run and of any stage of another run are as
-- before.
pub replace_errors :
    (host : Host) (formats : Formats) (fresh : ℕ → ℕ) (now : ℕ)
    (run_id pipeline_id strategy run_mode stage_name : String) (key : Option String)
    (errors : List Dict) (db : AuditDb) (u : ℕ) (rows : List ValidationErrorAudit) (v : ℕ)
    (other : String)
    → parse_run_id formats run_id ≡ ok u
    → normalize_errors host
        (context_of u now pipeline_id strategy run_mode stage_name key)
        fresh
        0
        errors
      ≡ ok rows
    → IsOtherStage u stage_name v other
    → ((replace_validation_errors_for_stage host formats fresh now run_id pipeline_id strategy
          run_mode stage_name key errors db).0
        ≡ ok (length errors))
      × (errors_of u stage_name
            (replace_validation_errors_for_stage host formats fresh now run_id pipeline_id strategy
              run_mode stage_name key errors db).1
          ≡ rows)
      × (errors_of v other
            (replace_validation_errors_for_stage host formats fresh now run_id pipeline_id strategy
              run_mode stage_name key errors db).1
          ≡ errors_of v other db)
unfolding replace_validation_errors_for_stage
replace_errors host formats fresh now run_id pipeline_id strategy run_mode stage_name key errors db
      u rows v other parsed normal differ =
    let c : ErrorContext = context_of u now pipeline_id strategy run_mode stage_name key in
    (
      rw (parsed, normal) (ap ok (facts host fresh c errors rows db normal).1),
      rw (parsed, normal) (replaced_rows host fresh c errors rows db normal),
      rw (parsed, normal) (other_rows host fresh c errors rows db normal v other differ),
    )
