-- ===== src/Dags/Finalize.antt =====
-- `finalize_run` and `finalize_replay`, as the DAGs have them.
pub mod Releases
pub mod Ends
use ingestion_airflow.Common.{
  ℕ, String, Bool, true, false, Option, none, some, List, [], ◌∷◌, if◌then◌else◌,
}
use ingestion_airflow.Py.Exc.{
  Kind, type_error, airflow_fail, Exception, Result, ok, raised, raise, ◌>>=◌,
}
use ingestion_airflow.Py.Int.{ℤ, pos}
use ingestion_airflow.Py.Text.{concat, join}
use ingestion_airflow.Py.Value.{
  Host, Value, null, bool, int, text, list, dict, Items, nil, cons, truthy, str, int_of,
}
use ingestion_airflow.Py.Dict.{Dict, lookup, get, to_fields}
use ingestion_airflow.Config.Parse.{value_or}
use ingestion_airflow.Config.Steps.{subscript_text}
use ingestion_airflow.Runtime.Tasks.{get_missing_return_value_tasks}
use ingestion_airflow.Db.Tables.{AuditDb, Action}
use ingestion_airflow.Db.Locks.{release_pipeline_lock}
use ingestion_airflow.Db.Stages.{StageRecord, read_stage_audit_record}
use ingestion_airflow.Db.Runs.{Counts, finish_run_audit, finalize_pipeline_state}
use ingestion_airflow.ValidationErrorAudit.{StageContext, persist_validation_errors_from_artifact}
use ingestion_airflow.Dags.{
  Dag, TaskEnv, and_then, lift, finally, enrich, scope_of, load_run_config, store_of,
}

-- What the tasks returned: each of them returns a dictionary. A task that has returned nothing has no entry.
abbrev pub Xcom : Type 0
Xcom = String → Option Dict

abbrev pub value_of : Option Dict → Option Value
value_of none = none
value_of (some d) = some (dict (to_fields d))

unfoldable pub failed_tasks_of : Xcom → List String → List String
failed_tasks_of xcom task_ids = get_missing_return_value_tasks (λ t. value_of (xcom t)) task_ids

-- `task_instance.xcom_pull(task_ids=…) or {}`
abbrev pub result_of : Option Dict → Dict
result_of none = []
result_of (some d) = d

-- `v or w`
abbrev pub or_else : Value → Value → Value
or_else v w = if truthy v then v else w

-- `int(result.get(key, 0) or 0)`
unfoldable pub count_of : Host → Dict → String → Result ℤ
count_of host result key =
    int_of host (or_else (value_or (lookup key result) (int (pos 0))) (int (pos 0)))

-- The arguments of `finish_run_audit`, with `read_count` evaluated first.
unfoldable pub counts_of : Host → Result ℤ → Dict → Result Counts
counts_of host read result = do
  read_count ← read
  insert_count ← count_of host result "insert_count"
  update_count ← count_of host result "update_count"
  delete_count ← count_of host result "delete_count"
  unchanged_count ← count_of host result "unchanged_count"
  ok (record {
    read_count = read_count;
    insert_count = insert_count;
    update_count = update_count;
    delete_count = delete_count;
    unchanged_count = unchanged_count;
  })

-- `str(run_context["run_id"])`: a start that failed has left None for the context.
abbrev pub run_id_of : Host → Option Dict → Result String
run_id_of host none = raise type_error "'NoneType' object is not subscriptable"
run_id_of host (some run_context) = subscript_text host run_context "run_id"

abbrev pub texts : List String → Items
texts [] = nil
texts (s ∷ ss) = cons (text s) (texts ss)

-- A failed run is recorded: the counts are read before the metrics are built.
unfoldable pub finish_failed :
    (d : Dag) → TaskEnv → d.Config → String → Result Counts → Dict → String → Action (Unit {0})
finish_failed d e config run_id counts payload error_text db =
    and_then (lift counts db) λ counts db. and_then (lift (store_of d e config) db) λ store db.
      and_then (lift (enrich e (some store) (scope_of d config run_id none) payload) db)
        λ metrics db.
          finish_run_audit e.formats e.finished run_id "failed" counts (some metrics)
            (some error_text) db

-- A run that succeeded is recorded: the metrics are built before the counts are read.
unfoldable pub finish_succeeded :
    (d : Dag) → TaskEnv → d.Config → String → Result Counts → Dict → Action (Unit {0})
finish_succeeded d e config run_id counts payload db =
    and_then (lift (store_of d e config) db) λ store db.
      and_then (lift (enrich e (some store) (scope_of d config run_id none) payload) db)
        λ metrics db. and_then (lift counts db) λ counts db.
          finish_run_audit e.formats e.finished run_id "success" counts (some metrics) none db

-- The block under `finally`.
unfoldable pub close : (d : Dag) → TaskEnv → d.Config → Option Dict → Action (Unit {0})
close d e config run_context db = and_then (lift (run_id_of e.host run_context) db) λ run_id db.
    and_then (release_pipeline_lock e.formats (d.pipeline_id config) run_id db)
      λ _ db. finalize_pipeline_state e.finished (d.pipeline_id config) db

abbrev pub finalized : Dict
finalized = ("finalized", bool true) ∷ []

unfoldable pub closing :
    (d : Dag) → TaskEnv → d.Config → Option Dict → Action (Unit {0}) → Action Dict
unfolding close
closing d e config run_context body db =
    and_then (finally (body db) (close d e config run_context)) λ _ db. (ok finalized, db)

-- What the ingesting DAGs do differently at the end of a run. The task that extracts and its stage have
-- one name; `extract` below is what that task returned or its stage recorded, `applied` what the
-- task that writes the curated table returned.
pub record FinalizeTask : Type 0 where
  pub task_ids : List String
  pub extract_stage : String
  pub apply_task : String
  pub failed_read_count : Host → (extract : Dict) → Result ℤ
  pub failed_payload : (failed_tasks : List String) → (extract checkpoint : Dict) → Dict
  pub read_count : Host → (delta applied : Dict) → Result ℤ
  pub payload : (extract applied checkpoint : Dict) → Dict

abbrev pub failure_of : String → List String → Exception
failure_of prefix failed_tasks = record {
  kind = airflow_fail;
  message = concat (prefix ∷ join ", " failed_tasks ∷ []);
}

abbrev pub persist_errors :
    (d : Dag) → TaskEnv → d.Config → String → String → Dict → Action (Unit {0})
persist_errors d e config run_id stage_name stage_payload db =
    and_then (lift (store_of d e config) db) λ store db.
      and_then
        (persist_validation_errors_from_artifact e.host e.formats (e.reader store) e.fresh
          e.finished
          (record {
            run_id = run_id;
            pipeline_id = d.pipeline_id config;
            strategy = d.strategy;
            run_mode = d.run_mode;
            stage_name = stage_name;
          })
          (some stage_payload) db)
        λ _ db. (ok tt, db)

-- The block under `try` of `finalize_run`.
unfoldable pub finish_ingest :
    (d : Dag)
    → FinalizeTask
    → TaskEnv
    → d.Config
    → String
    → (failed_tasks : List String) → (extract delta applied checkpoint : Dict) → Action (Unit {0})
finish_ingest d f e config run_id [] extract delta applied checkpoint db =
    and_then
      (finish_succeeded d e config run_id
        (counts_of e.host (f.read_count e.host delta applied) applied)
        (f.payload extract applied checkpoint) db)
      λ _ db. persist_errors d e config run_id f.extract_stage extract db
finish_ingest d f e config run_id (t ∷ ts) extract delta applied checkpoint db =
    and_then
      (finish_failed d e config run_id
        (counts_of e.host (f.failed_read_count e.host extract) applied)
        (f.failed_payload (t ∷ ts) extract checkpoint)
        (concat ("Pipeline failed at stages: " ∷ join ", " (t ∷ ts) ∷ [])) db)
      λ _ db.
        and_then (persist_errors d e config run_id f.extract_stage extract db)
          λ _ db. (raised (failure_of "Pipeline failed at tasks: " (t ∷ ts)), db)

-- `accepted_result or dict((extract_stage_record or {}).get("metrics_json") or {})`
abbrev pub extract_payload : Dict → Option StageRecord → Dict
extract_payload [] none = []
extract_payload [] (some r) = r.metrics_json
extract_payload (entry ∷ rest) r = entry ∷ rest

unfoldable pub finalize_run : (d : Dag) → FinalizeTask → TaskEnv → Option Dict → Xcom → Action Dict
unfolding closing
finalize_run d f e run_context xcom db = and_then (lift (load_run_config d e) db) λ config db.
    and_then (lift (run_id_of e.host run_context) db) λ run_id db.
      and_then (read_stage_audit_record e.formats run_id f.extract_stage db) λ stage_record db.
        closing d e config run_context
          (finish_ingest d f e config run_id (failed_tasks_of xcom f.task_ids)
            (extract_payload (result_of (xcom f.extract_stage)) stage_record)
            (result_of (xcom f.extract_stage)) (result_of (xcom f.apply_task))
            (result_of (xcom "persist_checkpoint_task")))
          db

-- What the replaying DAGs do differently at the end of a run.
pub record FinalizeReplayTask : Type 0 where
  pub task_id : String
  pub stages_prefix : String
  pub tasks_prefix : String
  pub failed_payload : (failed_tasks : List String) → (run_context : Dict) → Dict
  pub payload : (applied run_context : Dict) → Dict

-- The block under `try` of `finalize_replay`.
unfoldable pub finish_replay :
    (d : Dag)
    → FinalizeReplayTask
    → TaskEnv
    → d.Config
    → Option Dict
    → (failed_tasks : List String) → (applied : Dict) → Action (Unit {0})
finish_replay d f e config none failed_tasks applied db =
    (raise type_error "'NoneType' object is not subscriptable", db)
finish_replay d f e config (some run_context) [] applied db =
    and_then (lift (run_id_of e.host (some run_context)) db) λ run_id db.
      finish_succeeded d e config run_id
        (counts_of e.host (count_of e.host applied "read_count") applied)
        (f.payload applied run_context) db
finish_replay d f e config (some run_context) (t ∷ ts) applied db =
    and_then (lift (run_id_of e.host (some run_context)) db) λ run_id db.
      and_then
        (finish_failed d e config run_id
          (counts_of e.host (count_of e.host applied "read_count") applied)
          (f.failed_payload (t ∷ ts) run_context)
          (concat (f.stages_prefix ∷ join ", " (t ∷ ts) ∷ [])) db)
        λ _ db. (raised (failure_of f.tasks_prefix (t ∷ ts)), db)

unfoldable pub finalize_replay :
    (d : Dag) → FinalizeReplayTask → TaskEnv → Option Dict → Xcom → Action Dict
unfolding closing
finalize_replay d f e run_context xcom db = and_then (lift (load_run_config d e) db) λ config db.
    closing d e config run_context
      (finish_replay d f e config run_context (failed_tasks_of xcom (f.task_id ∷ []))
        (result_of (xcom f.task_id)))
      db
