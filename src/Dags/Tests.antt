-- ===== src/Dags/Tests.antt =====
-- The tasks and the runs of the DAGs on samples.
mod Replays
mod Acknowledged
use ingestion_airflow.Common.{
  String, ◌+◌, ◌*◌, ◌≡◌, ◌≢◌, refl, false, true, Option, none, some, [], ◌∷◌, All, arith,
}
use ingestion_airflow.Py.Exc.{Exception, Result, ok, raised, foreign}
use ingestion_airflow.Py.Int.{pos}
use ingestion_airflow.Py.Value.{int, text, int_of, str}
use ingestion_airflow.ValidationErrorAudit.{
  extract_validation_error_context, text_or_none, error_key_of,
  persist_validation_errors_from_artifact,
}
use ingestion_airflow.Py.Dict.{Dict, lookup, subscript, get, insert, update}
use ingestion_airflow.Samples.{sample_host, sample_formats, empty_db}
use ingestion_airflow.Config.Tests.{
  sample_ingestion, ingestion_run, sample_incremental_audit, incremental_audit_run,
  sample_logical_cdc, logical_cdc_run, sample_replay, replay_run, incremental_audit_replay_run,
}
use ingestion_airflow.Config.Ingestion.{pipeline_id}
use ingestion_airflow.Config.Parse.{build_pipeline_id}
use ingestion_airflow.Py.Text.{concat}
use ingestion_airflow.Observability.{has_artifact_keys, ends_with, observed_text}
use ingestion_airflow.Observability.Numbers.{
  derive_rate_metrics, first_int, number_or_none, changes,
}
use ingestion_airflow.Observability.Enrich.{
  enrich_metrics_payload, artifact_keys, collect_artifact_metrics, build_problem_summary,
  problems_of,
}
use ingestion_airflow.Db.Table.{first_where, upsert, update_where}
use ingestion_airflow.Db.Tables.{PipelineLock, AuditDb, Action, parse_run_id}
use ingestion_airflow.Db.Stages.{
  is_stage, running_stage, start_stage_audit, read_stage_audit_record,
}
use ingestion_airflow.Db.Locks.Holding.{lock_of, IsFree, IsNotHeldBy}
use ingestion_airflow.Db.Runs.{is_run, finish_run, finish_run_audit}
use ingestion_airflow.Dags.{TaskEnv, store_of, enrich, scope_of, failure_payload}
use ingestion_airflow.Dags.Samples.{sample_task, sample_registry}
use ingestion_airflow.Dags.Stage.{execute_stage}
use ingestion_airflow.Dags.Outcome.{stage_failure, stage_success}
use ingestion_airflow.Dags.Start.{start_failure, no_counts, lock_is_held, start_run}
use ingestion_airflow.Dags.Hashdiff.{
  hashdiff, start_task, finalize_task, build_run_context, Snapshots,
}
use ingestion_airflow.Dags.Hashdiff.Run.{ingest_contract_hashdiff, hashdiff_run_releases}
use ingestion_airflow.Config.Replay.{pipeline_id as replay_pipeline}
use ingestion_airflow.Dags.Finalize.{
  Xcom, failed_tasks_of, finalized, run_id_of, counts_of, count_of, finish_ingest, finish_succeeded,
}
use ingestion_airflow.Runtime.ObjectStore.{
  ObjectStoreConfig, at_landing, build_object_store_config, static_credentials,
}
use ingestion_airflow.Py.Text.Strip.{strip}
use ingestion_airflow.Config.Steps.{subscript_text}
use ingestion_airflow.Observability.Enrich.{artifact_sizes}
use ingestion_airflow.Dags.Finalize.Ends.{finalize_run_complete, run_body, finalize_run-eq}
use ingestion_airflow.Dags.Finalize.Releases.{closing-eq}
use ingestion_airflow.Dags.LogicalCdc.Acknowledged.{HasCheckpoint, acknowledged_after_checkpoint}
use ingestion_airflow.Dags.Stage.{attempt_stage}
use ingestion_airflow.Db.Stages.{finish_stage_audit}
use ingestion_airflow.Py.Value.{bool}
use ingestion_airflow.Dags.Replay.{replay_input}
use ingestion_airflow.Dags.Replay.Manifest.{
  strip_slashes as strip_all_slashes, derive_validation_manifest_key,
}
use ingestion_airflow.Dags.Replay.Manifest.Agrees.{derive-build_hashdiff_artifacts}
use ingestion_airflow.Dags.LogicalCdc.{
  ensure_source_logical_cdc_capture_task, extract_validate_land_wal_delta_task, apply_delta_task,
  persist_checkpoint_task, ack_replication_slot_task, checkpoint_payload, ack,
}
use ingestion_airflow.Db.Checkpoints.{persist_pipeline_checkpoint}
use ingestion_airflow.Py.Value.{truthy}
use ingestion_airflow.Py.Dict.{to_fields}
use ingestion_airflow.Py.Value.{dict}
use ingestion_airflow.Runtime.Artifacts.{
  build_hashdiff_artifacts, build_incremental_audit_artifacts, base_key,
}
use ingestion_airflow.Dags.Replay.Hashdiff.{
  hashdiff_replay, start_task as hashdiff_replay_task, resolve_replay_input as resolve_hashdiff,
}
use ingestion_airflow.Dags.Replay.Hashdiff.Run.{
  replay_contract_hashdiff_from_minio, hashdiff_replay_releases,
}
use ingestion_airflow.Dags.Replay.IncrementalAudit.{incremental_audit_replay, resolving}
use ingestion_airflow.Dags.Replay.Delta.{
  resolve_replay_input as resolve_delta, resolution, delta_keys, expected, required, delta_version,
  version_or, present_or,
}
use ingestion_airflow.Db.Stages.{read_stage_audit_metrics}
use ingestion_airflow.Runtime.Tasks.{get_missing_return_value_tasks}
use ingestion_airflow.Dags.Replay.Delta.Resolves.{HasResolved, resolve_replay_input-HasResolved}
use ingestion_airflow.Config.IncrementalAudit.{pipeline_id as audit_pipeline}
use ingestion_airflow.Config.LogicalCdc.{pipeline_id as cdc_pipeline}
use ingestion_airflow.Dags.IncrementalAudit.{incremental_audit, start_task as audit_task, Deltas}
use ingestion_airflow.Dags.IncrementalAudit.Run.{
  ingest_contract_incremental_audit, incremental_audit_run_releases,
}
use ingestion_airflow.Dags.LogicalCdc.{logical_cdc, start_task as cdc_task, WalDeltas}
use ingestion_airflow.Dags.LogicalCdc.Run.{
  stages as cdc_stages, ingest_contract_logical_cdc, logical_cdc_run_releases,
}
use ingestion_airflow.Dags.Locks.{IsHeldUntil, start_run_locks}
use ingestion_airflow.Dags.Locked.{refused_run, start_run_refused}

abbrev sample_failure : Exception
sample_failure = record { kind = foreign "DataError"; message = "boom" }

abbrev failing_action : Action Dict
failing_action db = (raised sample_failure, db)

abbrev sample_result : Dict
sample_result = ("read_count", int (pos 3)) ∷ []

abbrev working_action : Action Dict
working_action db = (ok sample_result, db)

abbrev started_db : AuditDb
started_db = (start_stage_audit sample_formats 5 "xxx" "merge_curated" empty_db).1

parsed : parse_run_id sample_formats "xxx" ≡ ok 2
unfolding parse_run_id
parsed = refl

stage_row :
    first_where (is_stage 2 "merge_curated") started_db.stage_audit
    ≡ some (running_stage 2 "merge_curated" 5)
unfolding first_where start_stage_audit upsert parse_run_id
stage_row = refl

no_artifacts : has_artifact_keys sample_host sample_result ≡ false
unfolding has_artifact_keys ends_with
no_artifacts = refl

-- What was built, or nothing.
abbrev pub built : Result Dict → Dict
built (ok d) = d
built (raised x) = []

abbrev stage_metrics : Dict → Result Dict
stage_metrics payload =
    enrich sample_task none (scope_of hashdiff sample_ingestion "xxx" (some "merge_curated"))
      payload

failure_enriched :
    stage_metrics (failure_payload hashdiff sample_task sample_failure)
    ≡ ok (built (stage_metrics (failure_payload hashdiff sample_task sample_failure)))
unfolding enrich_metrics_payload derive_rate_metrics first_int number_or_none observed_text
    ends_with insert update lookup get artifact_keys collect_artifact_metrics build_problem_summary
    problems_of changes int_of extract_validation_error_context text_or_none
failure_enriched = refl

result_enriched : stage_metrics sample_result ≡ ok (built (stage_metrics sample_result))
unfolding enrich_metrics_payload derive_rate_metrics first_int number_or_none observed_text
    ends_with insert update lookup get artifact_keys collect_artifact_metrics build_problem_summary
    problems_of changes int_of extract_validation_error_context text_or_none
result_enriched = refl

abbrev start_metrics : Result Dict
start_metrics =
    start_failure hashdiff (start_task []) sample_task sample_ingestion (sample_formats.show_uuid 2)

start_enriched : start_metrics ≡ ok (built start_metrics)
unfolding enrich_metrics_payload derive_rate_metrics first_int number_or_none observed_text
    ends_with insert update lookup get artifact_keys collect_artifact_metrics build_problem_summary
    problems_of changes int_of extract_validation_error_context text_or_none
start_enriched = refl

stage_failure_example :
    ((execute_stage hashdiff sample_task "xxx" "merge_curated" failing_action empty_db).0
      ≡ raised sample_failure)
    × ((read_stage_audit_record sample_formats "xxx" "merge_curated"
          (execute_stage hashdiff sample_task "xxx" "merge_curated" failing_action empty_db).1).0
        ≡ ok (
            some (record {
              status = "failed";
              metrics_json =
                  built (stage_metrics (failure_payload hashdiff sample_task sample_failure));
              error_text = some "boom";
              started_at = 5;
              finished_at = some 9;
            })))
stage_failure_example =
    stage_failure hashdiff sample_task "xxx" "merge_curated" failing_action empty_db started_db
      sample_ingestion 2 (running_stage 2 "merge_curated" 5) parsed ingestion_run stage_row
      sample_failure (built (stage_metrics (failure_payload hashdiff sample_task sample_failure)))
      refl failure_enriched

stage_success_example :
    ((execute_stage hashdiff sample_task "xxx" "merge_curated" working_action empty_db).0
      ≡ ok (built (stage_metrics sample_result)))
    × ((read_stage_audit_record sample_formats "xxx" "merge_curated"
          (execute_stage hashdiff sample_task "xxx" "merge_curated" working_action empty_db).1).0
        ≡ ok (
            some (record {
              status = "success";
              metrics_json = built (stage_metrics sample_result);
              error_text = none;
              started_at = 5;
              finished_at = some 9;
            })))
unfolding has_artifact_keys ends_with
stage_success_example =
    stage_success hashdiff sample_task "xxx" "merge_curated" working_action empty_db started_db
      sample_ingestion 2 (running_stage 2 "merge_curated" 5) parsed ingestion_run stage_row
      sample_result (built (stage_metrics sample_result)) none refl refl result_enriched

abbrev held_lock : PipelineLock
held_lock = record {
  pipeline_id = "sales.orders.hash_diff";
  run_id = 1;
  locked_at = 0;
  lock_until = 100;
}

abbrev locked_db : AuditDb
locked_db = record empty_db { pipeline_lock = held_lock ∷ [] }

held : lock_of (pipeline_id sample_ingestion) locked_db ≡ some held_lock
unfolding lock_of first_where pipeline_id build_pipeline_id concat
held = refl

abbrev pub sample_contract : Dict
sample_contract = ("contract_id", text "c") ∷ []

start_run_refused_example :
    ((start_run hashdiff (start_task []) sample_task 2 40 50 sample_contract locked_db).0
      ≡ raised (lock_is_held hashdiff sample_ingestion))
    × (lock_of
          (pipeline_id sample_ingestion)
          (start_run hashdiff (start_task []) sample_task 2 40 50 sample_contract locked_db).1
        ≡ some held_lock)
    × (first_where
          (is_run 2)
          (start_run hashdiff
            (start_task [])
            sample_task
            2
            40
            50
            sample_contract
            locked_db).1.run_audit
        ≡ some (
            refused_run hashdiff sample_task sample_ingestion 2 sample_contract
              (built start_metrics)))
unfolding first_where
start_run_refused_example =
    start_run_refused hashdiff (start_task []) sample_task 2 40 50 sample_contract locked_db
      sample_ingestion held_lock (built start_metrics) ingestion_run refl held (omega arith)
      start_enriched

no_lock : IsFree 50 (lock_of (pipeline_id sample_ingestion) empty_db)
unfolding lock_of first_where
no_lock = tt

start_run_locks_example :
    ((start_run hashdiff (start_task []) sample_task 2 40 50 sample_contract empty_db).0
      ≡ ok (build_run_context sample_ingestion (sample_formats.show_uuid 2) []))
    × IsHeldUntil 2 (40 + 7200 * 1_000_000) (
        lock_of
          (pipeline_id sample_ingestion)
          (start_run hashdiff (start_task []) sample_task 2 40 50 sample_contract empty_db).1)
unfolding first_where
start_run_locks_example =
    start_run_locks hashdiff (start_task []) sample_task 2 40 50 sample_contract empty_db
      sample_ingestion ingestion_run refl no_lock
      (build_run_context sample_ingestion (sample_formats.show_uuid 2) []) refl

abbrev pub sample_snapshots : Snapshots Unit
sample_snapshots = record {
  extract_validate_land_snapshot =
      λ contract extraction. ok (("accepted_object_key", text "k") ∷ []);
  merge_accepted_snapshot_to_curated = λ contract merge. raised sample_failure;
}

abbrev pub everywhere : String → TaskEnv
everywhere task_id = sample_task

pub parsed_back : parse_run_id sample_formats (sample_formats.show_uuid 2) ≡ ok 2
unfolding parse_run_id
parsed_back = refl

pub no_lock_at_all : (p : String) → IsNotHeldBy 2 (lock_of p empty_db)
unfolding lock_of first_where
no_lock_at_all p = tt

hashdiff_run_releases_example : IsNotHeldBy 2 (
    lock_of
      (pipeline_id sample_ingestion)
      (ingest_contract_hashdiff everywhere sample_registry sample_snapshots 2 40 50 empty_db).1)
hashdiff_run_releases_example =
    hashdiff_run_releases everywhere sample_registry sample_snapshots 2 40 50 sample_ingestion
      (built start_metrics) empty_db ingestion_run ingestion_run parsed_back start_enriched
      (no_lock_at_all (pipeline_id sample_ingestion))

abbrev sample_deltas : Deltas Unit
sample_deltas = record {
  Watermark = Unit;
  checkpoint_watermark_from_payload = λ payload. ok none;
  to_dict = λ w. [];
  ensure_source_audit_capture = λ contract capture. ok [];
  extract_validate_land_delta =
      λ contract start extraction. ok (("delta_object_key", text "k") ∷ []);
  apply_delta_to_curated = λ contract application. raised sample_failure;
}

abbrev audit_start : Result Dict
audit_start =
    start_failure incremental_audit (audit_task sample_task sample_registry sample_deltas [])
      sample_task sample_incremental_audit (sample_formats.show_uuid 2)

audit_enriched : audit_start ≡ ok (built audit_start)
unfolding enrich_metrics_payload derive_rate_metrics first_int number_or_none observed_text
    ends_with insert update lookup get artifact_keys collect_artifact_metrics build_problem_summary
    problems_of changes int_of extract_validation_error_context text_or_none
audit_enriched = refl

incremental_audit_run_frees_lock : IsNotHeldBy 2 (
    lock_of
      (audit_pipeline sample_incremental_audit)
      (ingest_contract_incremental_audit everywhere sample_registry sample_deltas 2 40 50 false
        empty_db).1)
incremental_audit_run_frees_lock =
    incremental_audit_run_releases everywhere sample_registry sample_deltas 2 40 50 false
      sample_incremental_audit (built audit_start) empty_db incremental_audit_run
      incremental_audit_run parsed_back audit_enriched
      (no_lock_at_all (audit_pipeline sample_incremental_audit))

abbrev pub sample_wal_deltas : WalDeltas Unit
sample_wal_deltas = record {
  last_applied_lsn = λ checkpoint. ok (text "0/1");
  ensure_source_logical_cdc_capture = λ contract capture. ok [];
  extract_validate_land_wal_delta = λ contract extraction. ok (("delta_object_key", text "k") ∷ []);
  apply_wal_delta_to_curated = λ contract application. ok [];
  resolve_checkpoint_lsn = λ start delta applied. ok (text "0/2");
  ack_logical_replication_slot = λ ack. ok (("status", text "acked") ∷ []);
}

abbrev cdc_start : Result Dict
cdc_start =
    start_failure logical_cdc (cdc_task sample_task sample_registry sample_wal_deltas [])
      sample_task sample_logical_cdc (sample_formats.show_uuid 2)

cdc_enriched : cdc_start ≡ ok (built cdc_start)
unfolding enrich_metrics_payload derive_rate_metrics first_int number_or_none observed_text
    ends_with insert update lookup get artifact_keys collect_artifact_metrics build_problem_summary
    problems_of changes int_of extract_validation_error_context text_or_none
cdc_enriched = refl

logical_cdc_run_releases_example : IsNotHeldBy 2 (
    lock_of
      (cdc_pipeline sample_logical_cdc)
      (ingest_contract_logical_cdc everywhere sample_registry sample_wal_deltas 2 40 50 true
        empty_db).1)
logical_cdc_run_releases_example =
    logical_cdc_run_releases everywhere sample_registry sample_wal_deltas 2 40 50 true
      sample_logical_cdc (built cdc_start) empty_db logical_cdc_run logical_cdc_run parsed_back
      cdc_enriched (no_lock_at_all (cdc_pipeline sample_logical_cdc))

abbrev all_returned : Xcom
all_returned task_id = some []

abbrev sample_context : Dict
sample_context = build_run_context sample_ingestion "xxx" []

context_named : run_id_of sample_host (some sample_context) ≡ ok "xxx"
unfolding build_run_context subscript_text subscript lookup str
context_named = refl

abbrev pub sample_store : ObjectStoreConfig
sample_store =
    at_landing ("landing", "accepted", none, none, true)
      (record { access_key_id = "key"; secret_access_key = "secret"; session_token = none })

pub store_made :
    build_object_store_config sample_host sample_task.exchange
      ("landing", "accepted", none, none, true)
    ≡ ok sample_store
unfolding build_object_store_config strip static_credentials
store_made = refl

store_built : store_of hashdiff sample_task sample_ingestion ≡ ok sample_store
store_built = store_made

abbrev run_metrics : Result Dict
run_metrics =
    enrich sample_task (some sample_store) (scope_of hashdiff sample_ingestion "xxx" none)
      (finalize_task.payload [] [] [])

run_enriched : run_metrics ≡ ok (built run_metrics)
unfolding enrich_metrics_payload derive_rate_metrics first_int number_or_none observed_text
    ends_with insert update lookup get artifact_keys collect_artifact_metrics build_problem_summary
    problems_of changes int_of extract_validation_error_context text_or_none
run_enriched = refl

finish_eq :
    finish_ingest hashdiff finalize_task sample_task sample_ingestion "xxx" [] [] [] [] []
      started_db
    ≡ (ok tt, started_db)
unfolding finish_ingest finish_succeeded counts_of count_of int_of lookup finish_run_audit
    parse_run_id persist_validation_errors_from_artifact error_key_of text_or_none get
    start_stage_audit update_where
finish_eq = rw (store_built, run_enriched) refl

body_eq :
    run_body hashdiff finalize_task sample_task sample_ingestion
      (some sample_context)
      "xxx"
      2
      all_returned
      started_db
      ingestion_run
      context_named
      parsed
      started_db
    ≡ (ok tt, started_db)
unfolding failed_tasks_of get_missing_return_value_tasks first_where start_stage_audit upsert
    parse_run_id
body_eq = finish_eq

finalize_run_complete_example : All (λ t. all_returned t ≢ none) finalize_task.task_ids
finalize_run_complete_example =
    finalize_run_complete hashdiff finalize_task sample_task sample_ingestion (some sample_context)
      "xxx" 2 all_returned started_db ingestion_run context_named parsed finalized
      (rw
        (
          finalize_run-eq hashdiff finalize_task sample_task sample_ingestion (some sample_context)
              "xxx" 2 all_returned started_db ingestion_run context_named parsed,
          closing-eq hashdiff sample_task sample_ingestion (some sample_context) "xxx" 2
              context_named parsed
              (run_body hashdiff finalize_task sample_task sample_ingestion (some sample_context)
                "xxx" 2 all_returned started_db ingestion_run context_named parsed)
              started_db started_db (ok tt) body_eq,
        )
        refl)
