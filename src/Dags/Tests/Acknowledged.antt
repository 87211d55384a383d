-- ===== src/Dags/Tests/Acknowledged.antt =====
-- The tasks of dags/ingest_contract_logical_cdc.py from the capture to the acknowledgement, on samples.
use ingestion_airflow.Common.{String, ◌≡◌, refl, false, true, Option, none, some, [], ◌∷◌}
use ingestion_airflow.Py.Exc.{Result, ok}
use ingestion_airflow.Py.Value.{text, int_of, str}
use ingestion_airflow.ValidationErrorAudit.{extract_validation_error_context, text_or_none}
use ingestion_airflow.Py.Dict.{Dict, lookup, subscript, get, insert, update}
use ingestion_airflow.Samples.{sample_host, empty_db}
use ingestion_airflow.Config.Tests.{sample_logical_cdc, logical_cdc_run}
use ingestion_airflow.Observability.{has_artifact_keys, ends_with, observed_text}
use ingestion_airflow.Observability.Numbers.{
  derive_rate_metrics, first_int, number_or_none, changes,
}
use ingestion_airflow.Observability.Enrich.{
  enrich_metrics_payload, artifact_keys, collect_artifact_metrics, build_problem_summary,
  problems_of,
}
use ingestion_airflow.Db.Tables.{AuditDb, parse_run_id}
use ingestion_airflow.Db.Stages.{start_stage_audit}
use ingestion_airflow.Dags.{enrich, scope_of}
use ingestion_airflow.Dags.Samples.{sample_task, sample_registry}
use ingestion_airflow.Dags.Stage.{execute_stage}
use ingestion_airflow.Runtime.ObjectStore.{ObjectStoreConfig}
use ingestion_airflow.Py.Text.Strip.{strip}
use ingestion_airflow.Config.Steps.{subscript_text}
use ingestion_airflow.Observability.Enrich.{artifact_sizes}
use ingestion_airflow.Dags.LogicalCdc.Acknowledged.{HasCheckpoint, acknowledged_after_checkpoint}
use ingestion_airflow.Dags.Stage.{attempt_stage}
use ingestion_airflow.Db.Stages.{finish_stage_audit}
use ingestion_airflow.Py.Value.{bool}
use ingestion_airflow.Dags.LogicalCdc.{
  ensure_source_logical_cdc_capture_task, extract_validate_land_wal_delta_task, apply_delta_task,
  persist_checkpoint_task, ack_replication_slot_task, checkpoint_payload, ack,
}
use ingestion_airflow.Db.Checkpoints.{persist_pipeline_checkpoint}
use ingestion_airflow.Py.Value.{truthy}
use ingestion_airflow.Py.Dict.{to_fields}
use ingestion_airflow.Py.Value.{dict}
use ingestion_airflow.Dags.LogicalCdc.{logical_cdc}
use ingestion_airflow.Dags.LogicalCdc.Run.{stages as cdc_stages}
use ingestion_airflow.Dags.Tests.{
  built, everywhere, sample_contract, sample_store, sample_wal_deltas, store_made,
}

abbrev cdc_context : Dict
cdc_context =
    ("run_id", text "xxx")
    ∷ ("start_lsn", text "0/1")
    ∷ (
      "artifacts",
      dict (
          to_fields (
            ("delta_object_key", text "k")
            ∷ ("validation_error_key", text "v")
            ∷ ("validation_manifest_key", text "m")
            ∷ [])),
    )
    ∷ []

abbrev cdc_metrics : Option ObjectStoreConfig → String → Dict → Result Dict
cdc_metrics store stage_name result =
    enrich sample_task store (scope_of logical_cdc sample_logical_cdc "xxx" (some stage_name))
      result

abbrev ensured : Result Dict
ensured = cdc_metrics none "ensure_source_logical_cdc_capture" (
    ("status", text "skipped")
    ∷ ("auto_setup_logical_cdc", bool false)
    ∷ ("output_plugin", text "pgoutput")
    ∷ [])

capture_skipped : ensured ≡ ok (built ensured)
unfolding enrich_metrics_payload derive_rate_metrics first_int number_or_none observed_text
    ends_with insert update lookup get artifact_keys collect_artifact_metrics build_problem_summary
    problems_of changes int_of extract_validation_error_context text_or_none str strip
capture_skipped = refl

ensure_ran :
    (db : AuditDb)
    → (ensure_source_logical_cdc_capture_task sample_task sample_registry sample_wal_deltas
        sample_contract cdc_context db).0
      ≡ ok (built ensured)
unfolding ensure_source_logical_cdc_capture_task execute_stage attempt_stage subscript_text
    subscript lookup str start_stage_audit finish_stage_audit parse_run_id has_artifact_keys
    ends_with
ensure_ran db = rw (logical_cdc_run, capture_skipped) refl

abbrev extracted_delta : Result Dict
extracted_delta =
    cdc_metrics (some sample_store) "extract_validate_land_wal_delta"
      (("delta_object_key", text "k") ∷ [])

extracted_built : extracted_delta ≡ ok (built extracted_delta)
unfolding enrich_metrics_payload derive_rate_metrics first_int number_or_none observed_text
    ends_with insert update lookup get artifact_keys collect_artifact_metrics build_problem_summary
    problems_of changes int_of extract_validation_error_context text_or_none str strip
    artifact_sizes
extracted_built = refl

extract_ran :
    (db : AuditDb)
    → (extract_validate_land_wal_delta_task sample_task sample_registry sample_wal_deltas
        sample_contract cdc_context db).0
      ≡ ok (built extracted_delta)
unfolding extract_validate_land_wal_delta_task execute_stage attempt_stage subscript_text subscript
    lookup str start_stage_audit finish_stage_audit parse_run_id has_artifact_keys ends_with
    observed_text strip
extract_ran db = rw (logical_cdc_run, store_made) (rw extracted_built refl)

abbrev applied_delta : Result Dict
applied_delta = cdc_metrics none "apply_delta" []

applied_built : applied_delta ≡ ok (built applied_delta)
unfolding enrich_metrics_payload derive_rate_metrics first_int number_or_none observed_text
    ends_with insert update lookup get artifact_keys collect_artifact_metrics build_problem_summary
    problems_of changes int_of extract_validation_error_context text_or_none str strip
applied_built = refl

apply_ran :
    (db : AuditDb)
    → (apply_delta_task sample_task sample_registry sample_wal_deltas sample_contract cdc_context
        (built extracted_delta)
        db).0
      ≡ ok (built applied_delta)
unfolding enrich_metrics_payload derive_rate_metrics first_int number_or_none observed_text
    ends_with insert update lookup get artifact_keys collect_artifact_metrics build_problem_summary
    problems_of changes int_of extract_validation_error_context text_or_none str strip
    artifact_sizes apply_delta_task execute_stage attempt_stage subscript_text subscript
    start_stage_audit finish_stage_audit parse_run_id has_artifact_keys
apply_ran db = rw (logical_cdc_run, store_made) refl

abbrev cdc_payload : Dict
cdc_payload =
    checkpoint_payload sample_task sample_registry sample_wal_deltas sample_logical_cdc tt
      cdc_context (built ensured) (built extracted_delta) (built applied_delta) (text "0/2")
      (text "xxx")

abbrev persisted_payload : Result Dict
persisted_payload = cdc_metrics (some sample_store) "persist_checkpoint" cdc_payload

persisted_built : persisted_payload ≡ ok (built persisted_payload)
unfolding enrich_metrics_payload derive_rate_metrics first_int number_or_none observed_text
    ends_with insert update lookup get artifact_keys collect_artifact_metrics build_problem_summary
    problems_of changes int_of extract_validation_error_context text_or_none str strip
    artifact_sizes checkpoint_payload
persisted_built = refl

payload_has_keys : has_artifact_keys sample_host cdc_payload ≡ true
unfolding enrich_metrics_payload derive_rate_metrics first_int number_or_none observed_text
    ends_with insert update lookup get artifact_keys collect_artifact_metrics build_problem_summary
    problems_of changes int_of extract_validation_error_context text_or_none str strip
    artifact_sizes checkpoint_payload has_artifact_keys
payload_has_keys = refl

persist_ran :
    (db : AuditDb)
    → (persist_checkpoint_task sample_task sample_registry sample_wal_deltas sample_contract
        cdc_context
        (built ensured)
        (built extracted_delta)
        (built applied_delta)
        db).0
      ≡ ok (built persisted_payload)
unfolding persist_checkpoint_task execute_stage attempt_stage subscript_text subscript lookup get
    str start_stage_audit finish_stage_audit parse_run_id persist_pipeline_checkpoint strip
persist_ran db = rw (logical_cdc_run, payload_has_keys, store_made, persisted_built) refl

abbrev acked : Result Dict
acked = cdc_metrics none "ack_replication_slot" (("status", text "acked") ∷ [])

slot_flushed : acked ≡ ok (built acked)
unfolding enrich_metrics_payload derive_rate_metrics first_int number_or_none observed_text
    ends_with insert update lookup get artifact_keys collect_artifact_metrics build_problem_summary
    problems_of changes int_of extract_validation_error_context text_or_none str strip
slot_flushed = refl

flush_given : truthy (get (built persisted_payload) "last_flushed_lsn") ≡ true
unfolding enrich_metrics_payload derive_rate_metrics first_int number_or_none observed_text
    ends_with insert update lookup get artifact_keys collect_artifact_metrics build_problem_summary
    problems_of changes int_of extract_validation_error_context text_or_none str strip
    artifact_sizes checkpoint_payload
flush_given = refl

ack_ran :
    (db : AuditDb)
    → (ack_replication_slot_task sample_task sample_registry sample_wal_deltas cdc_context
        (built persisted_payload)
        db).0
      ≡ ok (built acked)
unfolding ack_replication_slot_task execute_stage attempt_stage subscript_text subscript lookup str
    start_stage_audit finish_stage_audit parse_run_id has_artifact_keys ends_with observed_text
    strip ack
ack_ran db = rw (logical_cdc_run, flush_given, slot_flushed) refl

cdc_acknowledged :
    lookup "ack_replication_slot"
      (cdc_stages everywhere sample_registry sample_wal_deltas true
        (some sample_contract)
        (some [])
        (some cdc_context)
        empty_db).0
    ≡ some (some (built acked))
unfolding cdc_stages lookup
cdc_acknowledged = rw (ensure_ran, extract_ran, apply_ran, persist_ran, ack_ran) refl

acknowledged_after_checkpoint_example :
    HasCheckpoint sample_task sample_registry sample_wal_deltas
      (cdc_stages everywhere sample_registry sample_wal_deltas true
        (some sample_contract)
        (some [])
        (some cdc_context)
        empty_db).1
acknowledged_after_checkpoint_example =
    acknowledged_after_checkpoint everywhere sample_registry sample_wal_deltas true
      (some sample_contract) (some []) (some cdc_context) empty_db (built acked) cdc_acknowledged
