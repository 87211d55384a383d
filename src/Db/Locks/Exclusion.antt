-- ===== src/Db/Locks/Exclusion.antt =====
-- No second run gets the lock of a pipeline while the first one's lasts, whatever else is done.
use ingestion_airflow.Common.{
  ℕ, ◌<◌, String, ◌≡◌, ◌≢◌, ◌∙◌, inl, inr, true, false, Option, none, some, arith, str_eq, eq_iff,
  Bool-cases, leb,
}
use ingestion_airflow.Py.Exc.{ok, raised, Result}
use ingestion_airflow.Db.Tables.{PipelineLock, AuditDb, Formats, parse_run_id}
use ingestion_airflow.Db.Locks.{acquire_pipeline_lock, release_pipeline_lock}
use ingestion_airflow.Db.Locks.Holding.{
  lock_of, lock_of-acquire, lock_of-acquire_ne, lock_of-release_kept, IsFree, acquire_iff,
}

-- What other runs and processes do before the time `until`: any attempt to take any lock, a release by
-- a run other than `owner`, and every operation that leaves the table of locks alone.
pub data Step (formats : Formats) (owner until : ℕ) : AuditDb → AuditDb → Type 0 where
  attempt :
      (db : AuditDb) (locked_at now : ℕ) (pipeline_id run_id : String) (ttl_seconds : ℕ)
      → now < until
      → Step formats owner until db
          (acquire_pipeline_lock formats locked_at now pipeline_id run_id ttl_seconds db).1
  release :
      (db : AuditDb) (pipeline_id run_id : String)
      → formats.uuid run_id ≢ some owner
      → Step formats owner until db (release_pipeline_lock formats pipeline_id run_id db).1
  other :
      (db db' : AuditDb) → db'.pipeline_lock ≡ db.pipeline_lock → Step formats owner until db db'

pub data Steps (formats : Formats) (owner until : ℕ) (start : AuditDb) : AuditDb → Type 0 where
  here : Steps formats owner until start start
  next :
      {db db' : AuditDb}
      → Steps formats owner until start db
      → Step formats owner until db db'
      → Steps formats owner until start db'

attempt_kept :
    (formats : Formats) (locked_at now : ℕ) (p run_id : String) (ttl_seconds : ℕ) (db : AuditDb)
    (r : PipelineLock) (o : Result ℕ)
    → parse_run_id formats run_id ≡ o
    → now < r.lock_until
    → lock_of p db ≡ some r
    → lock_of p (acquire_pipeline_lock formats locked_at now p run_id ttl_seconds db).1 ≡ some r
unfolding acquire_pipeline_lock
attempt_kept formats locked_at now p run_id ttl_seconds db r (raised x) e early held = rw e held
attempt_kept formats locked_at now p run_id ttl_seconds db r (ok u) e early held =
    let still : leb r.lock_until now ≡ false = ground arith in
    lock_of-acquire formats locked_at now p run_id ttl_seconds db e ∙ rw held (rw still)

pub lock_of-Step :
    {formats : Formats} {owner until : ℕ} {db db' : AuditDb} (p : String) (r : PipelineLock)
    → r.run_id ≡ owner
    → r.lock_until ≡ until
    → Step formats owner until db db'
    → lock_of p db ≡ some r
    → lock_of p db' ≡ some r
unfolding lock_of
lock_of-Step {formats} p r mine last (attempt db locked_at now p' run_id ttl_seconds early) held =
    elim (Bool-cases (str_eq p' p)) [
      | inl same ↦
          let e : p' ≡ p = (eq_iff p' p).0 same in
          rw e (
            attempt_kept formats locked_at now p run_id ttl_seconds db r
              (parse_run_id formats run_id) (λ i. parse_run_id formats run_id) (omega arith) held)
      | inr differ ↦
          lock_of-acquire_ne formats locked_at now p' run_id ttl_seconds db p differ ∙ held
    ]
lock_of-Step {formats} p r mine last (release db p' run_id ne) held =
    lock_of-release_kept formats p' run_id db p r held (rw mine ne)
lock_of-Step p r mine last (other db db' same) held = rw same held

-- A held lock stays as it is over any such steps.
pub lock_of-Steps :
    {formats : Formats} {owner until : ℕ} {start db : AuditDb} (p : String) (r : PipelineLock)
    → r.run_id ≡ owner
    → r.lock_until ≡ until
    → lock_of p start ≡ some r
    → Steps formats owner until start db
    → lock_of p db ≡ some r
lock_of-Steps p r mine last held here = held
lock_of-Steps p r mine last held (next steps step) =
    lock_of-Step p r mine last step (lock_of-Steps p r mine last held steps)

not-IsFree :
    (now : ℕ) (r : PipelineLock) (o : Option PipelineLock)
    → o ≡ some r
    → now < r.lock_until
    → ¬ IsFree now o
not-IsFree now r none e early free = absurd (cc)
not-IsFree now r (some s) e early free =
    let same : s.lock_until ≡ r.lock_until = cc in absurd (omega arith)

-- While the lock of a run has not run out by the clock of the database, no attempt with a run id
-- that parses takes the pipeline's lock, after any attempts before that time, any releases by
-- other runs, and any operations that leave the table of locks alone.
pub lock_exclusion :
    (formats : Formats) (start db : AuditDb) (p : String) (r : PipelineLock)
    → lock_of p start ≡ some r
    → Steps formats r.run_id r.lock_until start db
    → (locked_at now : ℕ) (run_id : String) (ttl_seconds u : ℕ) → parse_run_id formats run_id ≡ ok u
    → now < r.lock_until
    → (acquire_pipeline_lock formats locked_at now p run_id ttl_seconds db).0 ≢ ok true
lock_exclusion formats start db p r held steps locked_at now run_id ttl_seconds u parsed early
      taken =
    not-IsFree now r (lock_of p db)
      (lock_of-Steps p r (λ i. r.run_id) (λ i. r.lock_until) held steps) early
      ((acquire_iff formats locked_at now p run_id ttl_seconds db parsed).0 taken)
