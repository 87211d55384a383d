-- ===== src/Db/Locks/Refines.antt =====
-- The table of locks as a map from pipelines to holders.
use ingestion_airflow.Common.{
  ℕ, ◌+◌, ◌*◌, String, ◌≡◌, refl, ap, ◌∙◌, inl, inr, Bool, true, false, Option, none, some, str_eq,
  eq_iff, ◌==◌, leb, Bool-cases, if◌then◌else◌,
}
use ingestion_airflow.Py.Exc.{ok}
use ingestion_airflow.Db.Table.{
  first_where, upserted, is_returned, delete_where, first_where-delete_kept, first_where-delete_ne,
  returned-upsert,
}
use ingestion_airflow.Db.Table.Keyed.{none-delete, AtMostOne-deleted, first_where-found}
use ingestion_airflow.Db.Tables.{PipelineLock, AuditDb, Formats, parse_run_id}
use ingestion_airflow.Db.Locks.{
  is_lock_of, is_expired, take_over, new_lock, is_held_by, insert_lock, acquire_pipeline_lock,
  release_pipeline_lock,
}
use ingestion_airflow.Db.Locks.Holding.{lock_of, lock_of-acquire, lock_of-acquire_ne}
use ingestion_airflow.Db.Keys.{IsKeyed}

-- Who holds a pipeline, and until when.
pub record Hold : Type 0 where
  pub run : ℕ
  pub until : ℕ

abbrev pub Holds : Type 0
Holds = String → Option Hold

-- What the table says of the holders.
abbrev hold_of : Option PipelineLock → Option Hold
hold_of none = none
hold_of (some r) = some (record { run = r.run_id; until = r.lock_until })

unfoldable pub holds : AuditDb → Holds
holds db p = hold_of (lock_of p db)

abbrev put : String → Option Hold → Holds → Holds
put p h m q = if str_eq p q then h else m q

-- A pipeline is granted where nobody holds it, or the hold has run out.
abbrev pub grants : ℕ → Option Hold → Bool
grants now none = true
grants now (some h) = leb h.until now

abbrev pub grant : (now : ℕ) → String → Hold → Holds → Holds
grant now p h m = put p (if grants now (m p) then some h else m p) m

abbrev dropped : ℕ → Option Hold → Option Hold
dropped u none = none
dropped u (some h) = if h.run == u then none else some h

-- A run gives back what it holds.
abbrev pub drop : String → ℕ → Holds → Holds
drop p u m = put p (dropped u (m p)) m

upserted-grant :
    (now : ℕ) (new : PipelineLock) (o : Option PipelineLock)
    → hold_of (upserted (is_expired now) (take_over new) new o) ≡ (
        if grants now (hold_of o)
        then some (record { run = new.run_id; until = new.lock_until })
        else hold_of o)
upserted-grant now new none = refl
upserted-grant now new (some r) = elim (Bool-cases (leb r.lock_until now)) [
  | inl e ↦ rw e refl
  | inr e ↦ rw e refl
]

returned-grants :
    (now : ℕ) (o : Option PipelineLock) → is_returned (is_expired now) o ≡ grants now (hold_of o)
returned-grants now none = refl
returned-grants now (some r) = refl

module _ (formats : Formats) (p run_id : String) (u : ℕ) (db : AuditDb)
    (parsed : parse_run_id formats run_id ≡ ok u) where
  acquire-grants :
      (locked_at now ttl_seconds : ℕ)
      → (acquire_pipeline_lock formats locked_at now p run_id ttl_seconds db).0
        ≡ ok (grants now (holds db p))
  unfolding acquire_pipeline_lock insert_lock holds lock_of
  acquire-grants locked_at now ttl_seconds = rw parsed (
      ap ok (
        returned-upsert (is_lock_of p) (is_expired now)
          (take_over (new_lock p u locked_at ttl_seconds)) (new_lock p u locked_at ttl_seconds)
          db.pipeline_lock
        ∙ returned-grants now (first_where (is_lock_of p) db.pipeline_lock)))

  acquire-grant :
      (locked_at now ttl_seconds : ℕ) (q : String)
      → holds (acquire_pipeline_lock formats locked_at now p run_id ttl_seconds db).1 q
        ≡ grant now p (record { run = u; until = locked_at + ttl_seconds * 1_000_000 }) (holds db) q
  unfolding holds
  acquire-grant locked_at now ttl_seconds q = elim (Bool-cases (str_eq p q)) [
    | inl e ↦
        let same : p ≡ q = (eq_iff p q).0 e in
        rw e (
          rw (← same) (
            ap hold_of (lock_of-acquire formats locked_at now p run_id ttl_seconds db parsed)
            ∙ upserted-grant now (new_lock p u locked_at ttl_seconds) (lock_of p db)))
    | inr e ↦
        rw e (ap hold_of (lock_of-acquire_ne formats locked_at now p run_id ttl_seconds db q e))
  ]

  other_pipeline :
      (q : String) (r : PipelineLock)
      → str_eq p q ≡ false
      → is_held_by p u r ≡ true
      → is_lock_of q r ≡ false
  other_pipeline q r e h = elim (Bool-cases (str_eq r.pipeline_id p)) [
    | inl k ↦ let same : r.pipeline_id ≡ p = (eq_iff r.pipeline_id p).0 k in rw same e
    | inr k ↦ absurd (cc (rw k at h))
  ]

  deleted :
      (o : Option PipelineLock)
      → IsKeyed db
      → first_where (is_lock_of p) db.pipeline_lock ≡ o
      → hold_of (first_where (is_lock_of p) (delete_where (is_held_by p u) db.pipeline_lock))
        ≡ dropped u (hold_of o)
  deleted none keyed h = rw (none-delete (is_lock_of p) (is_held_by p u) db.pipeline_lock h) refl
  deleted (some r) keyed h =
      let here : is_lock_of p r ≡ true = first_where-found (is_lock_of p) r db.pipeline_lock h in
      elim (Bool-cases (r.run_id == u)) [
        | inl e ↦
            let mine : is_held_by p u r ≡ true = rw (here, e) refl in
            rw
              (
                AtMostOne-deleted (is_lock_of p) (is_held_by p u) r db.pipeline_lock (keyed.0 p) h
                    mine,
                e,
              )
              refl
        | inr e ↦
            let other : is_held_by p u r ≡ false = rw (here, e) refl in
            rw
              (
                first_where-delete_kept (is_lock_of p) (is_held_by p u) r db.pipeline_lock h other,
                e,
              )
              refl
      ]

  release-drop :
      IsKeyed db
      → (q : String) → holds (release_pipeline_lock formats p run_id db).1 q ≡ drop p u (holds db) q
  unfolding holds release_pipeline_lock lock_of
  release-drop keyed q = elim (Bool-cases (str_eq p q)) [
    | inl e ↦
        let same : p ≡ q = (eq_iff p q).0 e in
        rw (parsed, e)
          (rw (← same) (deleted (first_where (is_lock_of p) db.pipeline_lock) keyed refl))
    | inr e ↦
        rw (parsed, e)
          (ap hold_of (
            first_where-delete_ne (is_lock_of q) (is_held_by p u) (λ r h. other_pipeline q r e h)
              db.pipeline_lock))
  ]

  -- The table of locks, where no pipeline has two rows, is a map from pipelines to holders: an attempt to take
  -- a lock answers and changes the map as granting the pipeline does, a release as dropping what the run holds,
  -- and all other pipelines keep their holders, where the run id parses.
  pub locks_refine :
      IsKeyed db
      → (locked_at now ttl_seconds : ℕ)
      → ((acquire_pipeline_lock formats locked_at now p run_id ttl_seconds db).0
          ≡ ok (grants now (holds db p)))
        × ((q : String)
            → holds (acquire_pipeline_lock formats locked_at now p run_id ttl_seconds db).1 q
              ≡ grant now p
                  (record { run = u; until = locked_at + ttl_seconds * 1_000_000 })
                  (holds db)
                  q)
        × ((release_pipeline_lock formats p run_id db).0 ≡ ok tt)
        × ((q : String)
            → holds (release_pipeline_lock formats p run_id db).1 q ≡ drop p u (holds db) q)
  unfolding release_pipeline_lock
  locks_refine keyed locked_at now ttl_seconds = (
    acquire-grants locked_at now ttl_seconds,
    acquire-grant locked_at now ttl_seconds,
    rw parsed refl,
    release-drop keyed,
  )
