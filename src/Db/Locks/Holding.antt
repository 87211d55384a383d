-- ===== src/Db/Locks/Holding.antt =====
-- When a pipeline's lock is taken, refused and released.
use ingestion_airflow.Common.{
  List, [], ◌∷◌, inl, inr, ◌==◌, Bool-cases, ℕ, ◌≤◌, ◌<◌, String, ◌≡◌, ◌≢◌, refl, ap, ◌↔◌, true,
  false, Option, none, some, arith, str_eq, eq_iff, eq_refl, ◌∙◌,
}
use ingestion_airflow.Py.Exc.{Result, ok, raised}
use ingestion_airflow.Db.Table.{
  first_where, first_where-upsert, returned-upsert, upsert, upsert_refused, first_where-upsert_ne,
  upserted, is_returned, delete_where, first_where-delete_kept,
}
use ingestion_airflow.Db.Tables.{
  PipelineLock, AuditDb, Formats, uuid_or_raise, parse_run_id, with_run_id,
}
use ingestion_airflow.Db.Locks.{
  is_lock_of, is_expired, take_over, new_lock, insert_lock, acquire_pipeline_lock, is_held_by,
  release_pipeline_lock,
}

-- The lock row of a pipeline.
unfoldable pub lock_of : String → AuditDb → Option PipelineLock
lock_of pipeline_id db = first_where (is_lock_of pipeline_id) db.pipeline_lock

-- The pipeline has no lock, or one that has run out.
abbrev pub IsFree : ℕ → Option PipelineLock → Type 0
IsFree now none = Unit
IsFree now (some r) = r.lock_until ≤ now

returned_iff :
    (now : ℕ) (o : Option PipelineLock) → (is_returned (is_expired now) o ≡ true) ↔ IsFree now o
returned_iff now none = (λ _. tt, λ _. refl)
returned_iff now (some r) = ground arith

module _ (formats : Formats) (locked_at now : ℕ) (pipeline_id run_id : String) (ttl_seconds : ℕ)
    {u : ℕ} (db : AuditDb) (parsed : parse_run_id formats run_id ≡ ok u) where
  acquire_as_insert :
      acquire_pipeline_lock formats locked_at now pipeline_id run_id ttl_seconds db
      ≡ insert_lock (new_lock pipeline_id u locked_at ttl_seconds) now db
  unfolding acquire_pipeline_lock
  acquire_as_insert = rw parsed

  -- Where the run id parses, the lock is acquired exactly if the pipeline has no lock or one that
  -- has run out by the clock of the database.
  pub acquire_iff :
      ((acquire_pipeline_lock formats locked_at now pipeline_id run_id ttl_seconds db).0 ≡ ok true)
      ↔ IsFree now (lock_of pipeline_id db)
  unfolding lock_of insert_lock
  acquire_iff =
      rw (acquire_as_insert, returned-upsert (is_lock_of pipeline_id))
        (let (to, from) =
            returned_iff now (first_where (is_lock_of pipeline_id) db.pipeline_lock) in
          (λ h. to cc, λ h. ap ok (from h)))

  -- While the lock of a pipeline lasts, an attempt to take it changes nothing.
  pub acquire_refused :
      (r : PipelineLock)
      → lock_of pipeline_id db ≡ some r
      → now < r.lock_until
      → acquire_pipeline_lock formats locked_at now pipeline_id run_id ttl_seconds db
        ≡ (ok false, db)
  unfolding lock_of insert_lock
  acquire_refused r held early =
      let still : is_expired now r ≡ false = ground arith in
      let refused : (upsert (is_lock_of pipeline_id) (is_expired now)
            (take_over (new_lock pipeline_id u locked_at ttl_seconds))
            (new_lock pipeline_id u locked_at ttl_seconds) db.pipeline_lock).1
          ≡ false =
        returned-upsert (is_lock_of pipeline_id) (is_expired now)
          (take_over (new_lock pipeline_id u locked_at ttl_seconds))
          (new_lock pipeline_id u locked_at ttl_seconds) db.pipeline_lock
        ∙ rw held (rw still) in
      rw acquire_as_insert (
        rw refused (λ i. (
          ok false,
          record db {
            pipeline_lock =
                upsert_refused (is_lock_of pipeline_id) (is_expired now)
                  (take_over (new_lock pipeline_id u locked_at ttl_seconds))
                  (new_lock pipeline_id u locked_at ttl_seconds) db.pipeline_lock refused i;
          },
        )))

-- The lock of the pipeline after an attempt to take it.
abbrev after_attempt : ℕ → PipelineLock → Option PipelineLock → Option PipelineLock
after_attempt now new o = upserted (is_expired now) (take_over new) new o

module _ (formats : Formats) (locked_at now : ℕ) (pipeline_id run_id : String) (ttl_seconds : ℕ)
    {u : ℕ} (db : AuditDb) (parsed : parse_run_id formats run_id ≡ ok u) where
  pub lock_of-acquire :
      lock_of pipeline_id
        (acquire_pipeline_lock formats locked_at now pipeline_id run_id ttl_seconds db).1
      ≡ after_attempt now (new_lock pipeline_id u locked_at ttl_seconds) (lock_of pipeline_id db)
  unfolding lock_of acquire_pipeline_lock
  lock_of-acquire = rw parsed (
      first_where-upsert (is_lock_of pipeline_id) (is_expired now)
        (take_over (new_lock pipeline_id u locked_at ttl_seconds))
        (new_lock pipeline_id u locked_at ttl_seconds) (eq_refl pipeline_id) (λ r h. h)
        db.pipeline_lock)

-- An attempt on another pipeline leaves this one's lock alone.
pub lock_of-acquire_ne :
    (formats : Formats) (locked_at now : ℕ) (other run_id : String) (ttl_seconds : ℕ) (db : AuditDb)
    (pipeline_id : String)
    → str_eq other pipeline_id ≡ false
    → lock_of pipeline_id
        (acquire_pipeline_lock formats locked_at now other run_id ttl_seconds db).1
      ≡ lock_of pipeline_id db
unfolding lock_of acquire_pipeline_lock
lock_of-acquire_ne formats locked_at now other run_id ttl_seconds db pipeline_id h =
    go (parse_run_id formats run_id)
  where
    go :
        (parsed : Result ℕ)
        → lock_of pipeline_id
            (with_run_id parsed
              (λ u. insert_lock (new_lock other u locked_at ttl_seconds) now)
              db).1
          ≡ lock_of pipeline_id db
    go (raised e) = refl
    go (ok u) =
        first_where-upsert_ne (is_lock_of other) (is_lock_of pipeline_id) (is_expired now)
          (take_over (new_lock other u locked_at ttl_seconds))
          (new_lock other u locked_at ttl_seconds) h
          (λ r e.
            let same : r.pipeline_id ≡ other = (eq_iff r.pipeline_id other).0 e in
            (rw same h, rw same h))
          db.pipeline_lock

-- A release by a run other than the holder of a pipeline's lock, for this pipeline or another,
-- leaves that lock as it is.
pub lock_of-release_kept :
    (formats : Formats) (other run_id : String) (db : AuditDb) (pipeline_id : String)
    (r : PipelineLock)
    → lock_of pipeline_id db ≡ some r
    → formats.uuid run_id ≢ some r.run_id
    → lock_of pipeline_id (release_pipeline_lock formats other run_id db).1 ≡ some r
unfolding lock_of release_pipeline_lock parse_run_id
lock_of-release_kept formats other run_id db pipeline_id r held not_owner =
    go (formats.uuid run_id) not_owner
  where
    go :
        (o : Option ℕ)
        → o ≢ some r.run_id
        → lock_of pipeline_id
            (with_run_id {0}
              (uuid_or_raise o)
              (λ u db. (
                ok tt,
                record db { pipeline_lock = delete_where (is_held_by other u) db.pipeline_lock },
              ))
              db).1
          ≡ some r
    go none ne = held
    go (some u) ne =
        first_where-delete_kept (is_lock_of pipeline_id) (is_held_by other u) r db.pipeline_lock
          held (ground (arith, ne))

-- The run does not have the lock of the pipeline.
abbrev pub IsNotHeldBy : ℕ → Option PipelineLock → Type 0
IsNotHeldBy u none = Unit
IsNotHeldBy u (some r) = r.run_id ≢ u

not_held-delete :
    (p : String) (u : ℕ) (rows : List PipelineLock)
    → IsNotHeldBy u (first_where (is_lock_of p) (delete_where (is_held_by p u) rows))
unfolding first_where delete_where
not_held-delete p u [] = tt
not_held-delete p u (r ∷ rows) = elim (Bool-cases (is_lock_of p r)) [
  | inr differ ↦ rw differ (rw differ (not_held-delete p u rows))
  | inl same ↦ elim (Bool-cases (r.run_id == u)) [
    | inl mine ↦ rw (same, mine) (not_held-delete p u rows)
    | inr other ↦ rw (same, other) (rw same (λ h. ground arith))
  ]
]

-- After a run has released the lock of a pipeline, it does not have it.
pub release_lem :
    (formats : Formats) (p run_id : String) (u : ℕ) (db : AuditDb)
    → parse_run_id formats run_id ≡ ok u
    → IsNotHeldBy u (lock_of p (release_pipeline_lock formats p run_id db).1)
unfolding lock_of release_pipeline_lock
release_lem formats p run_id u db parsed = rw parsed (not_held-delete p u db.pipeline_lock)

-- A release of a run id that parses returns.
pub release-returns :
    (formats : Formats) (p run_id : String) (u : ℕ) (db : AuditDb)
    → parse_run_id formats run_id ≡ ok u
    → release_pipeline_lock formats p run_id db
      ≡ (ok tt, (release_pipeline_lock formats p run_id db).1)
unfolding release_pipeline_lock
release-returns formats p run_id u db parsed = rw parsed refl
