-- ===== src/Db/Keys.antt =====
-- The primary keys of the audit tables: what the operations of ingestion_airflow/db/audit.py keep of them.
use ingestion_airflow.Common.{
  ℕ, String, ◌≡◌, refl, ◌∙◌, sym, Bool, true, false, Option, none, some, str_eq, eq_iff, ◌==◌,
  arith, ◌&&◌,
}
use ingestion_airflow.Py.Exc.{Result, ok, raised}
use ingestion_airflow.Py.Dict.{Dict}
use ingestion_airflow.Db.Table.{first_where}
use ingestion_airflow.Db.Table.Keyed.{
  AtMostOne, AtMostOne-upsert, AtMostOne-update, AtMostOne-delete, AtMostOne-append,
}
use ingestion_airflow.Db.Tables.{RunAudit, StageAudit, AuditDb, Formats, parse_run_id, with_run_id}
use ingestion_airflow.Db.Locks.{
  is_lock_of, is_expired, take_over, new_lock, is_held_by, insert_lock, acquire_pipeline_lock,
  release_pipeline_lock,
}
use ingestion_airflow.Db.Stages.{
  is_stage, running_stage, restart_stage, finish_stage, start_stage_audit, finish_stage_audit,
}
use ingestion_airflow.Db.Checkpoints.{
  is_checkpoint_of, new_checkpoint, replace_checkpoint, persist_pipeline_checkpoint,
}
use ingestion_airflow.Db.Runs.{
  is_run, new_run, finish_run, Counts, insert_run, latest_run, new_state, merge_state, is_state_of,
  write_state, start_run_audit, finish_run_audit, finalize_pipeline_state,
}

-- No two rows of a table have one primary key; the errors of stages are left out.
abbrev pub IsKeyed : AuditDb → Type 0
IsKeyed db =
    ((p : String) → AtMostOne (is_lock_of p) db.pipeline_lock)
    × ((u : ℕ) (stage_name : String) → AtMostOne (is_stage u stage_name) db.stage_audit)
    × ((p : String) → AtMostOne (is_checkpoint_of p) db.pipeline_checkpoint)
    × ((p : String) → AtMostOne (is_state_of p) db.pipeline_state)
    × ((u : ℕ) → AtMostOne (is_run u) db.run_audit)

-- One operation on the audit tables, by any run at any time.
pub data Operation (formats : Formats) : AuditDb → AuditDb → Type 0 where
  acquires :
      (db : AuditDb) (locked_at now : ℕ) (p run_id : String) (ttl_seconds : ℕ)
      → Operation formats db (acquire_pipeline_lock formats locked_at now p run_id ttl_seconds db).1
  releases :
      (db : AuditDb) (p run_id : String)
      → Operation formats db (release_pipeline_lock formats p run_id db).1
  starts_stage :
      (db : AuditDb) (now : ℕ) (run_id stage_name : String)
      → Operation formats db (start_stage_audit formats now run_id stage_name db).1
  finishes_stage :
      (db : AuditDb) (now : ℕ) (run_id stage_name status : String) (metrics_json : Option Dict)
      (error_text : Option String)
      → Operation formats db
          (finish_stage_audit formats now run_id stage_name status metrics_json error_text db).1
  persists_checkpoint :
      (db : AuditDb) (now : ℕ) (p run_id : String) (payload : Dict)
      → Operation formats db (persist_pipeline_checkpoint formats now p run_id payload db).1
  starts_run :
      (db : AuditDb) (u now : ℕ) (p strategy run_mode contract_id version checksum : String)
      → Operation formats db
          (start_run_audit formats u now p strategy run_mode contract_id version checksum db).1
  finishes_run :
      (db : AuditDb) (now : ℕ) (run_id status : String) (counts : Counts)
      (metrics_json : Option Dict) (error_text : Option String)
      → Operation formats db
          (finish_run_audit formats now run_id status counts metrics_json error_text db).1
  finalizes_state :
      (db : AuditDb) (now : ℕ) (p : String)
      → Operation formats db (finalize_pipeline_state now p db).1

-- Rows under a key that two texts name are under one key.
same_key : (p k : String) (t : String) → str_eq p k ≡ true → str_eq t k ≡ true → str_eq t p ≡ true
same_key p k t h g = (eq_iff t p).1 ((eq_iff t k).0 g ∙ sym ((eq_iff p k).0 h))

both_true : (a b : Bool) → (a && b) ≡ true → (a ≡ true) × (b ≡ true)
both_true true b h = (refl, h)
both_true false b h = absurd cc

same_stage :
    (u v : ℕ) (s t : String) (r : StageAudit)
    → (u == v && str_eq s t) ≡ true
    → is_stage v t r ≡ true
    → is_stage u s r ≡ true
same_stage u v s t r h g =
    let (h0, h1) = both_true (u == v) (str_eq s t) h in
    let (g0, g1) = both_true (r.run_id == v) (str_eq r.stage_name t) g in
    let run : (r.run_id == u) ≡ true = ground arith in rw run (same_key s t r.stage_name h1 g1)

pub with_run_id-keeps :
    {A : Type 0} (P : AuditDb → Type 0) (parsed : Result ℕ) (f : ℕ → AuditDb → Result A × AuditDb)
    (db : AuditDb)
    → P db
    → ((u : ℕ) → P (f u db).1)
    → P (with_run_id parsed f db).1
with_run_id-keeps P (ok u) f db h k = k u
with_run_id-keeps P (raised x) f db h k = h

module _ (formats : Formats) (db : AuditDb) (keyed : IsKeyed db) where
  acquire-IsKeyed :
      (locked_at now : ℕ) (p run_id : String) (ttl_seconds : ℕ)
      → IsKeyed (acquire_pipeline_lock formats locked_at now p run_id ttl_seconds db).1
  unfolding acquire_pipeline_lock insert_lock
  acquire-IsKeyed locked_at now p run_id ttl_seconds =
      let (locks, stages, checkpoints, states, runs) = keyed in
      with_run_id-keeps IsKeyed (parse_run_id formats run_id) _ db keyed λ u. (
        λ k.
            AtMostOne-upsert (is_lock_of k) (is_lock_of p) (is_expired now)
              (take_over (new_lock p u locked_at ttl_seconds)) (new_lock p u locked_at ttl_seconds)
              (λ r. refl) (λ h r g. same_key p k r.pipeline_id h g) db.pipeline_lock (locks k),
        stages,
        checkpoints,
        states,
        runs,
      )

  release-IsKeyed : (p run_id : String) → IsKeyed (release_pipeline_lock formats p run_id db).1
  unfolding release_pipeline_lock
  release-IsKeyed p run_id =
      let (locks, stages, checkpoints, states, runs) = keyed in
      with_run_id-keeps IsKeyed (parse_run_id formats run_id) _ db keyed λ u. (
        λ k. AtMostOne-delete (is_lock_of k) (is_held_by p u) db.pipeline_lock (locks k),
        stages,
        checkpoints,
        states,
        runs,
      )

  start_stage-IsKeyed :
      (now : ℕ) (run_id stage_name : String)
      → IsKeyed (start_stage_audit formats now run_id stage_name db).1
  unfolding start_stage_audit
  start_stage-IsKeyed now run_id stage_name =
      let (locks, stages, checkpoints, states, runs) = keyed in
      with_run_id-keeps IsKeyed (parse_run_id formats run_id) _ db keyed λ u. (
        locks,
        λ v t.
            AtMostOne-upsert (is_stage v t) (is_stage u stage_name) (λ _. true) (restart_stage now)
              (running_stage u stage_name now) (λ r. refl)
              (λ h r g. same_stage u v stage_name t r h g) db.stage_audit (stages v t),
        checkpoints,
        states,
        runs,
      )

  finish_stage-IsKeyed :
      (now : ℕ) (run_id stage_name status : String) (metrics_json : Option Dict)
      (error_text : Option String)
      → IsKeyed
          (finish_stage_audit formats now run_id stage_name status metrics_json error_text db).1
  unfolding finish_stage_audit
  finish_stage-IsKeyed now run_id stage_name status metrics_json error_text =
      let (locks, stages, checkpoints, states, runs) = keyed in
      with_run_id-keeps IsKeyed (parse_run_id formats run_id) _ db keyed λ u. (
        locks,
        λ v t.
            AtMostOne-update (is_stage v t) (is_stage u stage_name)
              (finish_stage now status metrics_json error_text) (λ r. refl) db.stage_audit
              (stages v t),
        checkpoints,
        states,
        runs,
      )

  persist-IsKeyed :
      (now : ℕ) (p run_id : String) (payload : Dict)
      → IsKeyed (persist_pipeline_checkpoint formats now p run_id payload db).1
  unfolding persist_pipeline_checkpoint
  persist-IsKeyed now p run_id payload =
      let (locks, stages, checkpoints, states, runs) = keyed in
      with_run_id-keeps IsKeyed (parse_run_id formats run_id) _ db keyed λ u. (
        locks,
        stages,
        λ k.
            AtMostOne-upsert (is_checkpoint_of k) (is_checkpoint_of p) (λ _. true)
              (replace_checkpoint (new_checkpoint p u payload now)) (new_checkpoint p u payload now)
              (λ r. refl) (λ h r g. same_key p k r.pipeline_id h g) db.pipeline_checkpoint
              (checkpoints k),
        states,
        runs,
      )

  insert-IsKeyed :
      (new : RunAudit) (o : Option RunAudit)
      → first_where (is_run new.run_id) db.run_audit ≡ o
      → IsKeyed (insert_run formats new o db).1
  insert-IsKeyed new (some r) h = keyed
  insert-IsKeyed new none h =
      let (locks, stages, checkpoints, states, runs) = keyed in
      (
        locks,
        stages,
        checkpoints,
        states,
        λ v.
            AtMostOne-append (is_run v) new db.run_audit
              (λ same. let e : new.run_id ≡ v = ground arith in rw (← e) h) (runs v),
      )

  start_run-IsKeyed :
      (u now : ℕ) (p strategy run_mode contract_id version checksum : String)
      → IsKeyed
          (start_run_audit formats u now p strategy run_mode contract_id version checksum db).1
  unfolding start_run_audit
  start_run-IsKeyed u now p strategy run_mode contract_id version checksum =
      insert-IsKeyed (new_run u now p strategy run_mode contract_id version checksum)
        (first_where (is_run u) db.run_audit) refl

  finish_run-IsKeyed :
      (now : ℕ) (run_id status : String) (counts : Counts) (metrics_json : Option Dict)
      (error_text : Option String)
      → IsKeyed (finish_run_audit formats now run_id status counts metrics_json error_text db).1
  unfolding finish_run_audit
  finish_run-IsKeyed now run_id status counts metrics_json error_text =
      let (locks, stages, checkpoints, states, runs) = keyed in
      with_run_id-keeps IsKeyed (parse_run_id formats run_id) _ db keyed λ u. (
        locks,
        stages,
        checkpoints,
        states,
        λ v.
            AtMostOne-update (is_run v) (is_run u)
              (finish_run now status counts metrics_json error_text) (λ r. refl) db.run_audit
              (runs v),
      )

  write-IsKeyed : (now : ℕ) (p : String) (o : Option RunAudit) → IsKeyed (write_state p now o db)
  write-IsKeyed now p none = keyed
  write-IsKeyed now p (some latest) =
      let (locks, stages, checkpoints, states, runs) = keyed in
      (
        locks,
        stages,
        checkpoints,
        λ k.
            AtMostOne-upsert (is_state_of k) (is_state_of p) (λ _. true)
              (merge_state (new_state p now latest) now) (new_state p now latest) (λ r. refl)
              (λ h r g. same_key p k r.pipeline_id h g) db.pipeline_state (states k),
        runs,
      )

  finalize-IsKeyed : (now : ℕ) (p : String) → IsKeyed (finalize_pipeline_state now p db).1
  unfolding finalize_pipeline_state
  finalize-IsKeyed now p = write-IsKeyed now p (latest_run p db.run_audit)

-- Any sequence of operations.
pub data Operations (formats : Formats) (start : AuditDb) : AuditDb → Type 0 where
  begun : Operations formats start start
  then :
      {db after : AuditDb}
      → Operations formats start db
      → Operation formats db after
      → Operations formats start after

-- Each operation on the audit tables keeps their primary keys.
pub IsKeyed-Operation :
    {formats : Formats} {db after : AuditDb}
    → Operation formats db after
    → IsKeyed db
    → IsKeyed after
IsKeyed-Operation {formats} (acquires db locked_at now p run_id ttl_seconds) keyed =
    acquire-IsKeyed formats db keyed locked_at now p run_id ttl_seconds
IsKeyed-Operation {formats} (releases db p run_id) keyed = release-IsKeyed formats db keyed p run_id
IsKeyed-Operation {formats} (starts_stage db now run_id stage_name) keyed =
    start_stage-IsKeyed formats db keyed now run_id stage_name
IsKeyed-Operation {formats} (finishes_stage db now run_id stage_name status metrics_json error_text)
      keyed =
    finish_stage-IsKeyed formats db keyed now run_id stage_name status metrics_json error_text
IsKeyed-Operation {formats} (persists_checkpoint db now p run_id payload) keyed =
    persist-IsKeyed formats db keyed now p run_id payload
IsKeyed-Operation {formats} (starts_run db u now p strategy run_mode contract_id version checksum)
      keyed =
    start_run-IsKeyed formats db keyed u now p strategy run_mode contract_id version checksum
IsKeyed-Operation {formats} (finishes_run db now run_id status counts metrics_json error_text)
      keyed =
    finish_run-IsKeyed formats db keyed now run_id status counts metrics_json error_text
IsKeyed-Operation {formats} (finalizes_state db now p) keyed =
    finalize-IsKeyed formats db keyed now p

-- No sequence of the operations on locks, stages, runs, checkpoints and states gives one primary key to two rows of
-- these tables, where they start without such rows.
pub IsKeyed-Operations :
    {formats : Formats} {start db : AuditDb}
    → IsKeyed start
    → Operations formats start db
    → IsKeyed db
IsKeyed-Operations keyed begun = keyed
IsKeyed-Operations keyed (then before operation) =
    IsKeyed-Operation operation (IsKeyed-Operations keyed before)
