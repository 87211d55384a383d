-- ===== src/Observability/Enrich.antt =====
-- `enrich_metrics_payload` of ingestion_airflow/observability.py, and the urllib part of a DSN.
use ingestion_airflow.Common.{String, Bool, true, not, ◌||◌, Option, none, some, [], ◌∷◌}
use ingestion_airflow.Py.Exc.{Result, ok, raised, ◌>>=◌, ◌>>◌}
use ingestion_airflow.Py.Int.{ℤ, pos, is_zero, ◌+ℤ◌}
use ingestion_airflow.Py.Value.{Host, Value, null, bool, int, text, dict}
use ingestion_airflow.Py.Dict.{DictOf, Dict, get, insert, update, to_fields}
use ingestion_airflow.Runtime.ObjectStore.{ObjectStoreConfig}
use ingestion_airflow.Runtime.Client.{ObjectStoreClient}
use ingestion_airflow.Observability.{observed_text, ends_with}
use ingestion_airflow.Observability.Numbers.{
  Floats, first_int, or_zero, length_or_empty, derive_rate_metrics,
}

-- The functions of urllib.parse that are called; `parse_qsl` keeps blank values.
pub record Urllib : Type 0 where
  pub urlsplit : String → String × String × String × String × String
  pub parse_qsl : String → DictOf String
  pub urlencode : DictOf String → String
  pub urlunsplit : String × String × String × String × String → String

-- `dict(pairs)`
unfoldable pub dict_of : DictOf String → DictOf String
dict_of pairs = update [] pairs

-- The parts of a DSN are its scheme, netloc, path, query and fragment.
unfoldable pub with_application_name : Urllib → String → String → String
with_application_name urllib dsn application_name =
    let parts = urllib.urlsplit dsn in
    let query = insert "application_name" application_name (dict_of (urllib.parse_qsl parts.3)) in
    urllib.urlunsplit (parts.0, parts.1, parts.2, urllib.urlencode query, parts.4)

abbrev put_key : Bool → String → Option String → DictOf String → DictOf String
put_key true key (some s) rest = (key, s) ∷ rest
put_key b key o rest = rest

-- The dictionary of the keys of artifacts with their texts.
unfoldable pub artifact_keys : Host → Dict → DictOf String
artifact_keys host [] = []
artifact_keys host ((key, value) ∷ payload) =
    put_key (ends_with key "_object_key" || ends_with key "_manifest_key") key
      (observed_text host value) (artifact_keys host payload)

abbrev put_size : String → Result ℤ → DictOf ℤ → DictOf ℤ
put_size metric_key (ok size) sizes = (metric_key, size) ∷ sizes
put_size metric_key (raised x) sizes = sizes

-- The loop that asks for the sizes: a key that cannot be resolved is logged and left out.
unfoldable pub artifact_sizes : ObjectStoreClient → ObjectStoreConfig → DictOf String → DictOf ℤ
artifact_sizes client config [] = []
artifact_sizes client config ((metric_key, object_key) ∷ keys) =
    put_size metric_key (client.get_object_size config object_key)
      (artifact_sizes client config keys)

unfoldable pub total : DictOf ℤ → ℤ
total [] = pos 0
total ((key, size) ∷ sizes) = size +ℤ total sizes

abbrev pub int_fields : DictOf ℤ → Dict
int_fields [] = []
int_fields ((key, z) ∷ sizes) = (key, int z) ∷ int_fields sizes

abbrev pub size_metrics : DictOf ℤ → Dict
size_metrics [] = []
size_metrics (entry ∷ sizes) =
    ("artifact_sizes_bytes", dict (to_fields (int_fields (entry ∷ sizes))))
    ∷ ("artifact_total_bytes", int (total (entry ∷ sizes)))
    ∷ []

abbrev sizes_of_keys : ObjectStoreClient → ObjectStoreConfig → DictOf String → Result Dict
sizes_of_keys client config [] = ok []
sizes_of_keys client config (entry ∷ keys) = do
  client.connect config
  ok (size_metrics (artifact_sizes client config (entry ∷ keys)))

unfoldable pub collect_artifact_metrics :
    Host → ObjectStoreClient → Dict → Option ObjectStoreConfig → Result Dict
collect_artifact_metrics host client payload none = ok []
collect_artifact_metrics host client payload (some config) =
    sizes_of_keys client config (artifact_keys host payload)

abbrev pub text_value : Option String → Value
text_value none = null
text_value (some s) = text s

abbrev pub or_text : Option String → Option String → Option String
or_text none t = t
or_text (some s) t = some s

-- `_text_or_none(…) or _text_or_none(…)`; a text that is given is not empty.
abbrev pub error_artifact_key : Host → Dict → Option String
error_artifact_key host payload =
    or_text (observed_text host (get payload "validation_error_object_key"))
      (observed_text host (get payload "error_object_key"))

-- The counts of a summary.
pub record Problems : Type 0 where
  pub invalid_records : ℤ
  pub invalid_transactions : ℤ
  pub quarantined_events : ℤ
  pub quarantined_transactions : ℤ
  pub failed_tasks : ℤ

abbrev pub has_problems : Problems → Bool
has_problems p =
    not (is_zero p.invalid_records)
    || not (is_zero p.invalid_transactions)
    || not (is_zero p.quarantined_events)
    || not (is_zero p.quarantined_transactions)
    || not (is_zero p.failed_tasks)

unfoldable pub problems_of : Host → Dict → Result Problems
problems_of host payload = do
  invalid_records ← first_int host payload ("invalid_row_count" ∷ "invalid_event_count" ∷ [])
  invalid_transactions ← first_int host payload ("invalid_transaction_count" ∷ [])
  quarantined_events ← first_int host payload ("quarantined_event_count" ∷ [])
  quarantined_transactions ← first_int host payload ("quarantined_transaction_count" ∷ [])
  failed_tasks ← length_or_empty (get payload "failed_tasks")
  ok (record {
    invalid_records = or_zero invalid_records;
    invalid_transactions = or_zero invalid_transactions;
    quarantined_events = or_zero quarantined_events;
    quarantined_transactions = or_zero quarantined_transactions;
    failed_tasks = pos failed_tasks;
  })

abbrev pub summary_of : Problems → Option String → Dict
summary_of p error_key =
    ("has_problems", bool (has_problems p))
    ∷ ("invalid_record_count", int p.invalid_records)
    ∷ ("invalid_transaction_count", int p.invalid_transactions)
    ∷ ("quarantined_event_count", int p.quarantined_events)
    ∷ ("quarantined_transaction_count", int p.quarantined_transactions)
    ∷ ("failed_task_count", int p.failed_tasks)
    ∷ ("error_artifact_key", text_value error_key)
    ∷ []

unfoldable pub build_problem_summary : Host → Dict → Result Dict
build_problem_summary host payload = do
  p ← problems_of host payload
  ok (summary_of p (error_artifact_key host payload))

-- What a payload is told of the run: its DAG's strategy and mode, the pipeline, the run, and the stage.
pub record Scope : Type 0 where
  pub strategy : String
  pub run_mode : String
  pub pipeline_id : String
  pub run_id : String
  pub stage_name : Option String

abbrev pub put_stage : Option String → Dict → Dict
put_stage none metrics = metrics
put_stage (some s) metrics = insert "stage_name" (text s) metrics

abbrev pub scoped : Scope → Dict → Dict
scoped scope payload = put_stage scope.stage_name (
    insert "run_id" (text scope.run_id) (
      insert "pipeline_id" (text scope.pipeline_id) (
        insert "run_mode" (text scope.run_mode) (insert "strategy" (text scope.strategy) payload))))

unfoldable pub enrich_metrics_payload :
    Host → Floats → ObjectStoreClient → Option ObjectStoreConfig → Scope → Dict → Result Dict
enrich_metrics_payload host floats client object_store_config scope payload = do
  rates ← derive_rate_metrics host floats (scoped scope payload)
  let rated = update (scoped scope payload) rates
  artifacts ← collect_artifact_metrics host client rated object_store_config
  let collected = update rated artifacts
  summary ← build_problem_summary host collected
  ok (insert "problem_summary" (dict (to_fields summary)) collected)
