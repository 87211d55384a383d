-- ===== src/ValidationErrorAudit/Ingest.antt =====
-- How many errors are ingested.
use ingestion_airflow.Common.{
  ℕ, ◌+◌, ◌≤◌, ◌<◌, String, ◌≡◌, refl, inl, inr, Bool, true, false, List, [], ◌∷◌, arith, leb,
  length, length-append, str_eq, Bool-cases,
}
use ingestion_airflow.Py.Exc.{Result, ok, raised}
use ingestion_airflow.Py.Text.Strip.{strip}
use ingestion_airflow.Py.Value.{Value, null, bool, int, float, text, list, dict}
use ingestion_airflow.Py.Dict.{Dict, entries}
use ingestion_airflow.ValidationErrorAudit.{
  Reader, collected, collect_line, collect_rows, read_errors,
}

collected_le : (rows : List Dict) (v : Value) → length (collected rows v) ≤ length rows + 1
collected_le rows (dict fs) = omega (arith, length-append rows (entries fs ∷ []))
collected_le rows null = omega arith
collected_le rows (bool b) = omega arith
collected_le rows (int z) = omega arith
collected_le rows (float z) = omega arith
collected_le rows (text z) = omega arith
collected_le rows (list z) = omega arith

collect_line_le :
    (loads : String → Result Value) (rows : List Dict) (line : String) (next : List Dict)
    → collect_line loads rows line ≡ ok next
    → length next ≤ length rows + 1
unfolding collect_line
collect_line_le loads rows line next h = elim (Bool-cases (str_eq (strip line) "")) [
  | inl e ↦ let same : rows ≡ next = cc (rw e at h) in rw (← same) (omega arith)
  | inr e ↦ by_value (loads (strip line)) (rw e at h)
]
  where
    by_value :
        (r : Result Value)
        → ◌≡◌ {A = Result (List Dict)}
            (elim r [ ok v ↦ ok (collected rows v) | raised e ↦ raised e ])
            (ok next)
        → length next ≤ length rows + 1
    by_value (raised x) k = absurd (cc)
    by_value (ok v) k = let same : collected rows v ≡ next = cc in rw (← same) (collected_le rows v)

-- The loop stops at the limit.
collect_rows_le :
    (limit : ℕ) (loads : String → Result Value) (rows : List Dict) (lines : List (Result String))
    (out : List Dict)
    → length rows < limit
    → collect_rows limit loads rows lines ≡ ok out
    → length out ≤ limit
unfolding collect_rows
collect_rows_le limit loads rows [] out h e =
    let same : rows ≡ out = cc in rw (← same) (omega arith)
collect_rows_le limit loads rows (raised x ∷ lines) out h e = absurd (cc)
collect_rows_le limit loads rows (ok line ∷ lines) out h e =
    go (collect_line loads rows line) refl e (λ next. collect_rows_le limit loads next lines out)
  where
    go :
        (r : Result (List Dict))
        → collect_line loads rows line ≡ r
        → ◌≡◌ {A = Result (List Dict)}
            (elim r [
              | raised e ↦ raised e
              | ok next ↦ elim (leb limit (length next)) [
                | true ↦ ok next
                | false ↦ collect_rows limit loads next lines
              ]
            ])
            (ok out)
        → ((next : List Dict)
            → length next < limit
            → collect_rows limit loads next lines ≡ ok out
            → length out ≤ limit)
        → length out ≤ limit
    go (raised x) q k ih = absurd (cc)
    go (ok next) q k ih = by_test (leb limit (length next)) refl k
      where
        by_test :
            (b : Bool)
            → leb limit (length next) ≡ b
            → ◌≡◌ {A = Result (List Dict)}
                (elim b [ true ↦ ok next | false ↦ collect_rows limit loads next lines ])
                (ok out)
            → length out ≤ limit
        by_test true t w =
            let same : next ≡ out = cc in
            rw (← same) (omega (arith, collect_line_le loads rows line next q))
        by_test false t w = ih next (ground arith) w

-- For a positive limit, at most that many errors are taken from an artifact, whatever it holds.
pub read_errors-le-limit :
    (reader : Reader) (limit : ℕ) (key : String) (rows : List Dict)
    → 0 < limit
    → read_errors reader limit key ≡ ok rows
    → length rows ≤ limit
unfolding read_errors
read_errors-le-limit reader limit key rows pos h = go (reader.open_lines key) h
  where
    go :
        (r : Result (List (Result String)))
        → ◌≡◌ {A = Result (List Dict)}
            (elim r [ raised e ↦ raised e | ok lines ↦ collect_rows limit reader.loads [] lines ])
            (ok rows)
        → length rows ≤ limit
    go (raised x) k = absurd (cc)
    go (ok lines) k = collect_rows_le limit reader.loads [] lines rows (omega arith) k
