-- ===== src/ValidationErrorAudit/Contents.antt =====
-- What is ingested, by what the artifact has.
use mathlib.Core.List.{append-nil, append_assoc}
use ingestion_airflow.Common.{
  sym, ℕ, ◌≤◌, ◌<◌, String, ◌≡◌, refl, ◌⊎◌, inl, inr, true, false, Option, none, some, List, [],
  ◌∷◌, arith, leb, length, take, length-append, ◌++◌, ap, if◌then◌else◌, str_eq, Bool-cases,
}
use ingestion_airflow.Py.Exc.{Exception, Result, ok, raised, ◌>>=◌}
use ingestion_airflow.Py.Text.Strip.{strip}
use ingestion_airflow.Py.Value.{Host, Value, null, bool, int, float, text, list, dict}
use ingestion_airflow.Py.Dict.{Dict, get, entries}
use ingestion_airflow.Db.Tables.{Formats, AuditDb}
use ingestion_airflow.Db.ValidationErrors.{replace_validation_errors_for_stage}
use ingestion_airflow.ValidationErrorAudit.{
  Reader, StageContext, collected, collect_line, collect_rows, read_errors, error_key_of,
  text_or_none, ingest_rows, persist_validation_errors_from_artifact,
}

-- What an artifact has, whatever the limit: its objects up to the first failure to read or parse a
-- line, and that failure.
abbrev pub Contents : Type 0
Contents = List Dict × Option Exception

abbrev object_of : Value → Option Dict
object_of (dict fs) = some (entries fs)
object_of other = none

-- The object in a line; a blank line has none, and neither has a line with another value.
unfoldable pub line_object : (String → Result Value) → String → Result (Option Dict)
line_object loads line =
    if str_eq (strip line) "" then ok none else (do v ← loads (strip line); ok (object_of v))

abbrev add_line : Result (Option Dict) → Contents → Contents
add_line (raised e) rest = ([], some e)
add_line (ok none) rest = rest
add_line (ok (some row)) rest = (row ∷ rest.0, rest.1)

unfoldable pub contents_of : (String → Result Value) → List (Result String) → Contents
unfolding line_object
contents_of loads [] = ([], none)
contents_of loads (raised e ∷ lines) = ([], some e)
contents_of loads (ok line ∷ lines) = add_line (line_object loads line) (contents_of loads lines)

abbrev or_failure : List Dict → Option Exception → Result (List Dict)
or_failure rows none = ok rows
or_failure rows (some e) = raised e

-- The first objects where they reach the limit, else all of them if nothing failed.
abbrev pub outcome : ℕ → Contents → Result (List Dict)
outcome limit c = if leb limit (length c.0) then ok (take limit c.0) else or_failure c.0 c.1

take_reached :
    (rows rest : List Dict) (failure : Option Exception)
    → outcome (length rows) (rows ++ rest, failure) ≡ ok rows
take_reached rows rest failure =
    rw (within (length rows) (length (rows ++ rest)) (omega (arith, length-append rows rest)))
      (ap ok (prefix rows))
  where
    within : (m n : ℕ) → m ≤ n → leb m n ≡ true
    within m n h = ground arith

    prefix : (xs : List Dict) → take (length xs) (xs ++ rest) ≡ xs
    prefix [] = refl
    prefix (x ∷ xs) = λ i. x ∷ prefix xs i

not_reached :
    (limit : ℕ) (rows : List Dict) (failure : Option Exception)
    → length rows < limit
    → outcome limit (rows, failure) ≡ or_failure rows failure
not_reached limit rows failure h =
    let more : leb limit (length rows) ≡ false = ground arith in rw more

-- A line that adds no row leaves the loop below its limit.
same_rows :
    (limit : ℕ) (rows : List Dict) (rest out : Result (List Dict))
    → length rows < limit
    → rest ≡ out
    → ◌≡◌ {A = Result (List Dict)}
        (elim (leb limit (length rows)) [ true ↦ ok rows | false ↦ rest ])
        out
same_rows limit rows rest out h e =
    let more : leb limit (length rows) ≡ false = ground arith in rw more e

-- A line that adds a row ends the loop at the limit.
added_row :
    (limit : ℕ) (rows : List Dict) (row : Dict) (rest : Result (List Dict)) (c : Contents)
    → length rows < limit
    → (length (rows ++ row ∷ []) < limit → rest ≡ outcome limit ((rows ++ row ∷ []) ++ c.0, c.1))
    → ◌≡◌ {A = Result (List Dict)}
        (elim (leb limit (length (rows ++ row ∷ []))) [
          | true ↦ ok (rows ++ row ∷ [])
          | false ↦ rest
        ])
        (outcome limit (rows ++ row ∷ c.0, c.1))
added_row limit rows row rest c h ih =
    rw (← append_assoc rows (row ∷ []) c.0)
      (elim (Bool-cases (leb limit (length (rows ++ row ∷ [])))) [
        | inl reached ↦
            let exact : limit ≡ length (rows ++ row ∷ []) =
              ground (arith, length-append rows (row ∷ [])) in
            rw reached (rw exact (sym (take_reached (rows ++ row ∷ []) c.0 c.1)))
        | inr more ↦ rw more (ih (ground arith))
      ])

abbrev add_object : List Dict → Result (Option Dict) → Result (List Dict)
add_object rows (raised e) = raised e
add_object rows (ok none) = ok rows
add_object rows (ok (some row)) = ok (rows ++ row ∷ [])

collect_line-eq-add_object :
    (loads : String → Result Value) (rows : List Dict) (line : String)
    → collect_line loads rows line ≡ add_object rows (line_object loads line)
unfolding collect_line line_object
collect_line-eq-add_object loads rows line = elim (Bool-cases (str_eq (strip line) "")) [
  | inl blank ↦ rw blank
  | inr full ↦ rw full (by_value (loads (strip line)))
]
  where
    of_value : (v : Value) → ok (collected rows v) ≡ add_object rows (ok (object_of v))
    of_value (dict fs) = refl
    of_value null = refl
    of_value (bool b) = refl
    of_value (int z) = refl
    of_value (float z) = refl
    of_value (text z) = refl
    of_value (list z) = refl

    by_value :
        (r : Result Value)
        → ◌≡◌ {A = Result (List Dict)}
            (elim r [ ok v ↦ ok (collected rows v) | raised e ↦ raised e ])
            (add_object rows (r >>= λ v. ok (object_of v)))
    by_value (raised x) = refl
    by_value (ok v) = of_value v

-- The loop from rows that were collected before.
collect_rows-eq-outcome :
    (limit : ℕ) (loads : String → Result Value) (rows : List Dict) (lines : List (Result String))
    → length rows < limit
    → collect_rows limit loads rows lines
      ≡ outcome limit (rows ++ (contents_of loads lines).0, (contents_of loads lines).1)
unfolding collect_rows contents_of
collect_rows-eq-outcome limit loads rows [] h =
    rw (append-nil rows) (sym (not_reached limit rows none h))
collect_rows-eq-outcome limit loads rows (raised x ∷ lines) h =
    rw (append-nil rows) (sym (not_reached limit rows (some x) h))
collect_rows-eq-outcome limit loads rows (ok line ∷ lines) h =
    rw (collect_line-eq-add_object loads rows line, collect_rows)
      (go (line_object loads line) (λ next. collect_rows-eq-outcome limit loads next lines))
  where
    go :
        (r : Result (Option Dict))
        → ((next : List Dict)
            → length next < limit
            → collect_rows limit loads next lines
              ≡ outcome limit (next ++ (contents_of loads lines).0, (contents_of loads lines).1))
        → ◌≡◌ {A = Result (List Dict)}
            (elim (add_object rows r) [
              | raised e ↦ raised e
              | ok next ↦ elim (leb limit (length next)) [
                | true ↦ ok next
                | false ↦ collect_rows limit loads next lines
              ]
            ])
            (outcome limit (
              rows ++ (add_line r (contents_of loads lines)).0,
              (add_line r (contents_of loads lines)).1,
            ))
    go (raised x) ih = rw (append-nil rows) (sym (not_reached limit rows (some x) h))
    go (ok none) ih = same_rows limit rows _ _ h (ih rows h)
    go (ok (some row)) ih =
        added_row limit rows row (collect_rows limit loads (rows ++ row ∷ []) lines)
          (contents_of loads lines) h (ih (rows ++ row ∷ []))

-- What the artifact with a key has; one that does not open has a failure alone.
abbrev pub artifact_of : Reader → String → Contents
artifact_of reader key = elim (reader.open_lines key) [
  | raised e ↦ ([], some e)
  | ok lines ↦ contents_of reader.loads lines
]

-- Reading an artifact stops at the limit, and else at the first failure.
read_errors-eq-outcome :
    (reader : Reader) (limit : ℕ) (key : String)
    → 0 < limit
    → read_errors reader limit key ≡ outcome limit (artifact_of reader key)
unfolding read_errors
read_errors-eq-outcome reader limit key pos = go (reader.open_lines key)
  where
    go :
        (opened : Result (List (Result String)))
        → ◌≡◌ {A = Result (List Dict)}
            (elim opened [
              | raised e ↦ raised e
              | ok lines ↦ collect_rows limit reader.loads [] lines
            ])
            (outcome limit
              (elim opened [ raised e ↦ ([], some e) | ok lines ↦ contents_of reader.loads lines ]))
    go (raised e) = sym (not_reached limit [] (some e) pos)
    go (ok lines) = collect_rows-eq-outcome limit reader.loads [] lines pos

-- The payload of a stage names an artifact, under the first of two keys that has a text.
abbrev pub Names : Host → Dict → String → Type 0
Names host payload key =
    (text_or_none host (get payload "validation_error_object_key") ≡ some key)
    ⊎ ((text_or_none host (get payload "validation_error_object_key") ≡ none)
        × (text_or_none host (get payload "error_object_key") ≡ some key))

key_of :
    (host : Host) (payload : Dict) (key : String)
    → Names host payload key
    → error_key_of host (some payload) ≡ some key
unfolding error_key_of
key_of host payload key (inl e) = rw e
key_of host payload key (inr (e, f)) = rw (e, f)

-- Where a stage names an artifact, its errors are replaced by the first 10 000 objects of the
-- artifact, or by all that it has, and no failure beyond those 10 000 objects counts. Where the
-- artifact does not open, or a line before that cannot be read or parsed, nothing is raised, 0 is
-- returned, and the audit tables are as before. Where the object store client cannot be made, its
-- exception leaves the call, and the tables are as before.
pub ingest_artifact :
    (host : Host) (formats : Formats) (reader : Reader) (fresh : ℕ → ℕ) (now : ℕ) (c : StageContext)
    (payload : Dict) (key : String) (db : AuditDb)
    → Names host payload key
    → persist_validation_errors_from_artifact host formats reader fresh now c (some payload) db
      ≡ elim reader.connected [
        | raised e ↦ (raised e, db)
        | ok _ ↦ elim (outcome 10_000 (artifact_of reader key)) [
          | raised e ↦ (ok 0, db)
          | ok rows ↦
              replace_validation_errors_for_stage host formats fresh now c.run_id c.pipeline_id
                c.strategy c.run_mode c.stage_name
                (some key)
                rows
                db
        ]
      ]
unfolding persist_validation_errors_from_artifact
ingest_artifact host formats reader fresh now c payload key db named =
    rw (key_of host payload key named) (
      go reader.connected (read_errors reader 10_000 key) (outcome 10_000 (artifact_of reader key))
        (read_errors-eq-outcome reader 10_000 key (omega arith)))
  where
    go :
        (s : Result (Unit {0})) (read r : Result (List Dict))
        → read ≡ r
        → ◌≡◌ {A = Result ℕ × AuditDb}
            (elim s [
              | raised e ↦ (raised e, db)
              | ok _ ↦ ingest_rows host formats fresh now c key read db
            ])
            (elim s [
              | raised e ↦ (raised e, db)
              | ok _ ↦ elim r [
                | raised e ↦ (ok 0, db)
                | ok rows ↦
                    replace_validation_errors_for_stage host formats fresh now c.run_id
                      c.pipeline_id c.strategy c.run_mode c.stage_name
                      (some key)
                      rows
                      db
              ]
            ])
    go (raised x) read r e = refl
    go (ok _) read (raised x) e = rw e
    go (ok _) read (ok rows) e = rw e
