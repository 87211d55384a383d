-- ===== src/Db/Checkpoints.antt =====
-- The pipeline checkpoints of ingestion_airflow/db/audit.py.
use ingestion_airflow.Common.{ℕ, String, ◌≡◌, refl, Bool, true, Option, none, some, str_eq, eq_refl}
use ingestion_airflow.Py.Exc.{ok}
use ingestion_airflow.Py.Value.{text}
use ingestion_airflow.Py.Dict.{Dict, insert}
use ingestion_airflow.Db.Table.{first_where, upsert_always, upserted, first_where-upsert}
use ingestion_airflow.Db.Tables.{
  PipelineCheckpoint, AuditDb, Formats, Action, parse_run_id, with_run_id,
}

abbrev pub is_checkpoint_of : String → PipelineCheckpoint → Bool
is_checkpoint_of pipeline_id r = str_eq r.pipeline_id pipeline_id

abbrev pub new_checkpoint : String → ℕ → Dict → ℕ → PipelineCheckpoint
new_checkpoint pipeline_id u checkpoint_payload now = record {
  pipeline_id = pipeline_id;
  run_id = u;
  checkpoint_json = checkpoint_payload;
  updated_at = now;
}

abbrev pub replace_checkpoint : PipelineCheckpoint → PipelineCheckpoint → PipelineCheckpoint
replace_checkpoint new r = record r {
  run_id = new.run_id;
  checkpoint_json = new.checkpoint_json;
  updated_at = new.updated_at;
}

unfoldable pub persist_pipeline_checkpoint :
    Formats → ℕ → String → String → Dict → Action (Unit {0})
persist_pipeline_checkpoint formats now pipeline_id run_id checkpoint_payload =
    with_run_id (parse_run_id formats run_id) (λ u db.
      let new = new_checkpoint pipeline_id u checkpoint_payload now in
      (
        ok tt,
        record db {
          pipeline_checkpoint =
              upsert_always (is_checkpoint_of pipeline_id) (replace_checkpoint new) new
                db.pipeline_checkpoint;
        },
      ))

abbrev pub checkpoint_dict : Formats → Option PipelineCheckpoint → Option Dict
checkpoint_dict formats none = none
checkpoint_dict formats (some r) = some (
    insert "updated_at" (text (formats.isoformat r.updated_at))
      (insert "run_id" (text (formats.show_uuid r.run_id)) r.checkpoint_json))

unfoldable pub read_pipeline_checkpoint : Formats → String → Action (Option Dict)
read_pipeline_checkpoint formats pipeline_id db = (
  ok (checkpoint_dict formats (first_where (is_checkpoint_of pipeline_id) db.pipeline_checkpoint)),
  db,
)

replaced :
    (new : PipelineCheckpoint) (o : Option PipelineCheckpoint)
    → str_eq new.pipeline_id new.pipeline_id ≡ true
    → (formats : Formats)
    → checkpoint_dict formats (upserted (λ _. true) (replace_checkpoint new) new o)
      ≡ checkpoint_dict formats (some new)
replaced new none h formats = refl
replaced new (some r) h formats = refl

-- Where the run id parses, a checkpoint that was persisted is read back: its payload, with
-- `run_id` and `updated_at` of the row in the place of any that the payload has, whatever
-- checkpoint stood there before.
pub checkpoint_roundtrip :
    (formats : Formats) (now : ℕ) (pipeline_id run_id : String) (payload : Dict) (db : AuditDb)
    (u : ℕ)
    → parse_run_id formats run_id ≡ ok u
    → (read_pipeline_checkpoint formats pipeline_id
        (persist_pipeline_checkpoint formats now pipeline_id run_id payload db).1).0
      ≡ ok (
          some (
            insert "updated_at"
              (text (formats.isoformat now))
              (insert "run_id" (text (formats.show_uuid u)) payload)))
unfolding read_pipeline_checkpoint persist_pipeline_checkpoint
checkpoint_roundtrip formats now pipeline_id run_id payload db u parsed =
    let new = new_checkpoint pipeline_id u payload now in
    rw parsed (
      rw
        (first_where-upsert (is_checkpoint_of pipeline_id) (λ _. true) (replace_checkpoint new) new
          (eq_refl pipeline_id) (λ r h. h) db.pipeline_checkpoint)
        (λ i. ok (
          replaced new (first_where (is_checkpoint_of pipeline_id) db.pipeline_checkpoint)
            (eq_refl pipeline_id) formats i)))
