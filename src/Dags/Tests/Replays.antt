-- ===== src/Dags/Tests/Replays.antt =====
-- The runs of the replaying DAGs, and what they resolve, on samples.
use ingestion_airflow.Common.{◌≡◌, refl, none, some}
use ingestion_airflow.Py.Exc.{Result, ok}
use ingestion_airflow.Py.Value.{int_of, str}
use ingestion_airflow.ValidationErrorAudit.{extract_validation_error_context, text_or_none}
use ingestion_airflow.Py.Dict.{Dict, lookup, get, insert, update}
use ingestion_airflow.Samples.{sample_formats, empty_db}
use ingestion_airflow.Config.Tests.{sample_replay, replay_run, incremental_audit_replay_run}
use ingestion_airflow.Py.Text.{concat}
use ingestion_airflow.Observability.{ends_with, observed_text}
use ingestion_airflow.Observability.Numbers.{
  derive_rate_metrics, first_int, number_or_none, changes,
}
use ingestion_airflow.Observability.Enrich.{
  enrich_metrics_payload, artifact_keys, collect_artifact_metrics, build_problem_summary,
  problems_of,
}
use ingestion_airflow.Db.Table.{first_where}
use ingestion_airflow.Db.Tables.{parse_run_id}
use ingestion_airflow.Db.Locks.Holding.{lock_of, IsNotHeldBy}
use ingestion_airflow.Dags.{enrich, scope_of}
use ingestion_airflow.Dags.Samples.{sample_task, sample_registry}
use ingestion_airflow.Dags.Start.{start_failure}
use ingestion_airflow.Config.Replay.{pipeline_id as replay_pipeline}
use ingestion_airflow.Runtime.ObjectStore.{build_object_store_config, static_credentials}
use ingestion_airflow.Py.Text.Strip.{strip}
use ingestion_airflow.Observability.Enrich.{artifact_sizes}
use ingestion_airflow.Dags.Replay.{replay_input}
use ingestion_airflow.Dags.Replay.Manifest.{
  strip_slashes as strip_all_slashes, derive_validation_manifest_key,
}
use ingestion_airflow.Dags.Replay.Manifest.Agrees.{derive-build_hashdiff_artifacts}
use ingestion_airflow.Runtime.Artifacts.{
  build_hashdiff_artifacts, build_incremental_audit_artifacts, base_key,
}
use ingestion_airflow.Dags.Replay.Hashdiff.{
  hashdiff_replay, start_task as hashdiff_replay_task, resolve_replay_input as resolve_hashdiff,
}
use ingestion_airflow.Dags.Replay.Hashdiff.Run.{
  replay_contract_hashdiff_from_minio, hashdiff_replay_releases,
}
use ingestion_airflow.Dags.Replay.IncrementalAudit.{incremental_audit_replay, resolving}
use ingestion_airflow.Dags.Replay.Delta.{
  resolve_replay_input as resolve_delta, resolution, delta_keys, expected, required, delta_version,
  version_or, present_or,
}
use ingestion_airflow.Db.Stages.{read_stage_audit_metrics}
use ingestion_airflow.Dags.Replay.Delta.Resolves.{HasResolved, resolve_replay_input-HasResolved}
use ingestion_airflow.Dags.Tests.{
  built, everywhere, no_lock_at_all, parsed_back, sample_snapshots, sample_store, store_made,
}

abbrev replay_found : Dict
replay_found =
    replay_input "accepted_object_key" "sales/orders/run_id=r1/accepted/accepted_snapshot.ndjson.gz"
      (some "sales/orders/run_id=r1/accepted/manifest.json") "7" (some "r1") none

replay_resolved : resolve_hashdiff sample_task ≡ ok replay_found
unfolding resolve_hashdiff build_object_store_config strip static_credentials
    build_hashdiff_artifacts base_key concat
replay_resolved = rw replay_run refl

abbrev replay_metrics : Result Dict
replay_metrics =
    enrich sample_task (some sample_store)
      (scope_of hashdiff_replay sample_replay (sample_formats.show_uuid 2) none)
      (hashdiff_replay_task sample_task replay_found).failure

replay_enriched : replay_metrics ≡ ok (built replay_metrics)
unfolding enrich_metrics_payload derive_rate_metrics first_int number_or_none observed_text
    ends_with insert update lookup get artifact_keys collect_artifact_metrics build_problem_summary
    problems_of changes int_of extract_validation_error_context text_or_none strip str
    artifact_sizes
replay_enriched = refl

replay_started :
    start_failure hashdiff_replay
      (hashdiff_replay_task sample_task replay_found)
      sample_task
      sample_replay
      (sample_formats.show_uuid 2)
    ≡ ok (built replay_metrics)
unfolding build_object_store_config strip static_credentials
replay_started = replay_enriched

replay_start_enriched :
    (found : Dict)
    → resolve_hashdiff sample_task ≡ ok found
    → (payload : Dict) × (start_failure hashdiff_replay
          (hashdiff_replay_task sample_task found)
          sample_task
          sample_replay
          (sample_formats.show_uuid 2)
        ≡ ok payload)
replay_start_enriched found h =
    let same : replay_found ≡ found = cc (rw replay_resolved at h) in
    rw (← same) (built replay_metrics, replay_started)

hashdiff_replay_releases_example : IsNotHeldBy 2 (
    lock_of
      (replay_pipeline sample_replay)
      (replay_contract_hashdiff_from_minio everywhere sample_registry sample_snapshots 2 40 50
        empty_db).1)
hashdiff_replay_releases_example =
    hashdiff_replay_releases everywhere sample_registry sample_snapshots 2 40 50 sample_replay
      empty_db replay_run replay_run parsed_back replay_start_enriched
      (no_lock_at_all (replay_pipeline sample_replay))

abbrev delta_found : Dict
delta_found =
    replay_input "delta_object_key" "sales/orders/run_id=r1/delta/accepted_delta.ndjson.gz"
      (some "sales/orders/run_id=r1/delta/manifest.json") "7" (some "r1") none

delta_resolved :
    (resolve_delta incremental_audit_replay resolving sample_task empty_db).0 ≡ ok delta_found
unfolding resolve_delta resolution delta_keys expected required delta_version version_or present_or
    read_stage_audit_metrics parse_run_id first_where build_incremental_audit_artifacts base_key
    concat
delta_resolved = rw (incremental_audit_replay_run, store_made) refl

resolve_replay_input-HasResolved_example :
    HasResolved incremental_audit_replay resolving sample_task empty_db delta_found
resolve_replay_input-HasResolved_example =
    resolve_replay_input-HasResolved incremental_audit_replay resolving sample_task empty_db
      delta_found delta_resolved

sample_trimmed :
    strip_all_slashes (strip (build_hashdiff_artifacts "sales" "orders" "r1").object_key)
    ≡ (build_hashdiff_artifacts "sales" "orders" "r1").object_key
unfolding strip_all_slashes strip build_hashdiff_artifacts base_key concat
sample_trimmed = refl

derive-build_hashdiff_artifacts_example :
    derive_validation_manifest_key (build_hashdiff_artifacts "sales" "orders" "r1").object_key
    ≡ some (build_hashdiff_artifacts "sales" "orders" "r1").validation_manifest_key
derive-build_hashdiff_artifacts_example =
    derive-build_hashdiff_artifacts "sales" "orders" "r1" sample_trimmed
