-- ===== src/Dags/LogicalCdc/Acknowledged.antt =====
-- The replication slot is acknowledged after the checkpoint is stored.
use ingestion_airflow.Common.{
  ℕ, String, ◌≡◌, refl, ap, ◌∙◌, sym, Bool, Option, some, Bool-cases, inl, inr,
}
use ingestion_airflow.Py.Exc.{Result, ok, raised}
use ingestion_airflow.Py.Value.{Value, text, truthy}
use ingestion_airflow.Py.Dict.{Dict, lookup, get, insert, subscript}
use ingestion_airflow.Config.Steps.{subscript_text}
use ingestion_airflow.Config.LogicalCdc.{LogicalCdcRunConfig, pipeline_id}
use ingestion_airflow.Db.Tables.{AuditDb, Formats, parse_run_id}
use ingestion_airflow.Db.Checkpoints.{
  persist_pipeline_checkpoint, read_pipeline_checkpoint, checkpoint_roundtrip,
}
use ingestion_airflow.Dags.{TaskEnv, lift, load_run_config}
use ingestion_airflow.Dags.Core.{Registry}
use ingestion_airflow.Dags.Graph.{task_of_two, task_of_five}
use ingestion_airflow.Dags.Inversion.{
  after_and_then, after_lift, after_stage, Keeps, task_of_two-some, task_of_five-some,
}
use ingestion_airflow.Dags.LogicalCdc.{
  logical_cdc, WalDeltas, checkpoint_payload, start_lsn_of, persist_checkpoint_task, ack,
  ack_replication_slot_task,
}
use ingestion_airflow.Dags.LogicalCdc.Run.{stages}

read-Keeps :
    (formats : Formats) (p : String) (before after : AuditDb)
    → Keeps before after
    → (read_pipeline_checkpoint formats p after).0 ≡ (read_pipeline_checkpoint formats p before).0
unfolding read_pipeline_checkpoint
read-Keeps formats p before after kept = rw kept refl

-- A checkpoint is stored only for a run id that parses.
persist-parses :
    (formats : Formats) (now : ℕ) (p run_id : String) (payload : Dict) (db after : AuditDb)
    (v : Unit {0})
    → persist_pipeline_checkpoint formats now p run_id payload db ≡ (ok v, after)
    → (u : ℕ) × (parse_run_id formats run_id ≡ ok u)
unfolding persist_pipeline_checkpoint
persist-parses formats now p run_id payload db after v h = go (parse_run_id formats run_id) refl
  where
    go :
        (o : Result ℕ)
        → parse_run_id formats run_id ≡ o
        → (u : ℕ) × (parse_run_id formats run_id ≡ ok u)
    go (ok u) q = (u, q)
    go (raised x) q = absurd (let clash : raised x ≡ ok v = ap (λ o. o.0) (rw q at h) in cc)

module _ (e : TaskEnv) (registry : Registry) (core : WalDeltas registry.Contract) where
  -- The pipeline has a checkpoint of a success, up to the position in the log that was resolved.
  abbrev pub HasCheckpoint : AuditDb → Type 0
  HasCheckpoint db =
      (config : LogicalCdcRunConfig) × (start : Option String) × (delta applied : Dict)
      × (lsn : Value) × (found : Dict) × (load_run_config logical_cdc e ≡ ok config)
      × (core.resolve_checkpoint_lsn start delta applied ≡ ok lsn)
      × ((read_pipeline_checkpoint e.formats (pipeline_id config) db).0 ≡ ok (some found))
      × (get found "status" ≡ text "success")
      × (get found "last_flushed_lsn" ≡ lsn)

  HasCheckpoint-Keeps :
      (before after : AuditDb) → Keeps before after → HasCheckpoint before → HasCheckpoint after
  HasCheckpoint-Keeps before after kept
        (config, start, delta, applied, lsn, found, loaded, resolved, read, status, flushed) =
      (
        config,
        start,
        delta,
        applied,
        lsn,
        found,
        loaded,
        resolved,
        read-Keeps e.formats (pipeline_id config) before after kept ∙ read,
        status,
        flushed,
      )

  stored :
      (config : LogicalCdcRunConfig) (contract : registry.Contract)
      (run_context ensured delta applied : Dict) (lsn value : Value) (start : Option String)
      (run_id : String) (before after : AuditDb) (v : Unit {0})
      → load_run_config logical_cdc e ≡ ok config
      → core.resolve_checkpoint_lsn start delta applied ≡ ok lsn
      → persist_pipeline_checkpoint e.formats e.finished
          (pipeline_id config)
          run_id
          (checkpoint_payload e registry core config contract run_context ensured delta applied lsn
            value)
          before
        ≡ (ok v, after)
      → HasCheckpoint after
  unfolding checkpoint_payload get lookup insert
  stored config contract run_context ensured delta applied lsn value start run_id before after v
        loaded resolved h =
      let payload =
        checkpoint_payload e registry core config contract run_context ensured delta applied lsn
          value in
      let (u, parsed) =
        persist-parses e.formats e.finished (pipeline_id config) run_id payload before after v h in
      let read =
        checkpoint_roundtrip e.formats e.finished (pipeline_id config) run_id payload before u
          parsed in
      (
        config,
        start,
        delta,
        applied,
        lsn,
        _,
        loaded,
        resolved,
        ap
              (λ (o : Result (Unit {0}) × AuditDb).
                (read_pipeline_checkpoint e.formats (pipeline_id config) o.1).0)
              (sym h)
            ∙ read,
        refl,
        refl,
      )

  persist-HasCheckpoint :
      (contract_payload run_context ensured delta applied : Dict) (db out : AuditDb) (b : Dict)
      → persist_checkpoint_task e registry core contract_payload run_context ensured delta applied
          db
        ≡ (ok b, out)
      → HasCheckpoint out
  unfolding persist_checkpoint_task
  persist-HasCheckpoint contract_payload run_context ensured delta applied db out b h =
      after_lift (load_run_config logical_cdc e) db _ b out h λ config loaded h1.
        after_lift (registry.from_registry_payload contract_payload) db _ b out h1 λ contract h2 h3.
          after_lift (subscript_text e.host run_context "run_id") db _ b out h3 λ run_id h4 h5.
            after_stage logical_cdc e run_id "persist_checkpoint" _ db out b h5
              λ before after result began acted kept.
                after_lift
                  (core.resolve_checkpoint_lsn (start_lsn_of e registry core run_context) delta
                    applied)
                  before _ result after acted
                  λ lsn resolved h6.
                    after_lift (subscript run_context "run_id") before _ result after h6
                      λ value h7 h8.
                        after_and_then
                          (persist_pipeline_checkpoint e.formats e.finished (pipeline_id config)
                            run_id
                            (checkpoint_payload e registry core config contract run_context ensured
                              delta applied lsn value)
                            before)
                          _ result after h8
                          λ v last h9 h10.
                            let here : HasCheckpoint last =
                              stored config contract run_context ensured delta applied lsn value
                                (start_lsn_of e registry core run_context) run_id before last v
                                loaded resolved h9 in
                            let same : last ≡ after = ap (λ (o : Result Dict × AuditDb). o.1) h10 in
                            HasCheckpoint-Keeps after out kept (rw same at here)

  ack-Keeps :
      (run_context checkpoint_result : Dict) (db out : AuditDb) (b : Dict)
      → ack_replication_slot_task e registry core run_context checkpoint_result db ≡ (ok b, out)
      → Keeps db out
  unfolding ack_replication_slot_task
  ack-Keeps run_context checkpoint_result db out b h =
      after_lift (load_run_config logical_cdc e) db _ b out h λ config loaded h1.
        elim (Bool-cases (truthy (get checkpoint_result "last_flushed_lsn"))) [
          | inr empty ↦
              ap (λ (o : Result Dict × AuditDb). o.1.pipeline_checkpoint) (sym (rw empty at h1))
          | inl given ↦
              after_lift (subscript_text e.host run_context "run_id") db _ b out (rw given at h1)
                λ run_id h2 h3.
                  after_stage logical_cdc e run_id "ack_replication_slot"
                    (lift (ack e registry core config (get checkpoint_result "last_flushed_lsn")))
                    db out b h3
                    λ before after result began acted kept.
                      kept
                      ∙ ap (λ (o : Result Dict × AuditDb). o.1.pipeline_checkpoint) (sym acted)
                      ∙ began
        ]

module _ (e : String → TaskEnv) (registry : Registry) (core : WalDeltas registry.Contract) where
  abbrev persisted : (c x k l m : Option Dict) → AuditDb → Option Dict × AuditDb
  persisted c x k l m db =
      task_of_five c x k l m (persist_checkpoint_task (e "persist_checkpoint_task") registry core)
        db

  abbrev acknowledged : (x p : Option Dict) → AuditDb → Option Dict × AuditDb
  acknowledged x p db =
      task_of_two x p (ack_replication_slot_task (e "ack_replication_slot") registry core) db

  acknowledged-HasCheckpoint :
      (c x k l m : Option Dict) (db : AuditDb) (r : Dict)
      → (acknowledged x (persisted c x k l m db).0 (persisted c x k l m db).1).0 ≡ some r
      → HasCheckpoint
          (e "persist_checkpoint_task")
          registry
          core
          (acknowledged x (persisted c x k l m db).0 (persisted c x k l m db).1).1
  acknowledged-HasCheckpoint c x k l m db r h =
      let before = persisted c x k l m db in
      let (context, p, has_context, has_persisted, acked) =
        task_of_two-some x before.0
          (ack_replication_slot_task (e "ack_replication_slot") registry core) before.1 r h in
      let (a, b, en, de, ap, ran) =
        task_of_five-some c x k l m
          (persist_checkpoint_task (e "persist_checkpoint_task") registry core) db p
          has_persisted in
      HasCheckpoint-Keeps (e "persist_checkpoint_task") registry core before.1
        (acknowledged x before.0 before.1).1
        (ack-Keeps (e "ack_replication_slot") registry core context p before.1
          (acknowledged x before.0 before.1).1 r acked)
        (persist-HasCheckpoint (e "persist_checkpoint_task") registry core a b en de ap db before.1
          p ran)

  -- A run in which the replication slot has been acknowledged has stored its checkpoint before, and the
  -- tables have it: a checkpoint of a success of this pipeline, with the position in the log that was resolved.
  pub acknowledged_after_checkpoint :
      (capture_first : Bool) (contract_payload checkpoint run_context : Option Dict) (db : AuditDb)
      (r : Dict)
      → lookup "ack_replication_slot"
          (stages e registry core capture_first contract_payload checkpoint run_context db).0
        ≡ some (some r)
      → HasCheckpoint
          (e "persist_checkpoint_task")
          registry
          core
          (stages e registry core capture_first contract_payload checkpoint run_context db).1
  unfolding stages lookup
  acknowledged_after_checkpoint capture_first contract_payload checkpoint run_context db r h =
      acknowledged-HasCheckpoint contract_payload run_context _ _ _ _ r cc
