-- ===== src/Dags/Replay.antt =====
-- What the replaying DAGs of dags/ have in common.
pub mod Manifest
pub mod Hashdiff
pub mod Delta
pub mod IncrementalAudit
pub mod LogicalCdc
use ingestion_airflow.Common.{
  String, Bool, true, false, Option, none, some, [], ◌∷◌, str_eq, if◌then◌else◌,
}
use ingestion_airflow.Py.Exc.{Result, ok, raised, ◌>>=◌}
use ingestion_airflow.Py.Text.Strip.{strip}
use ingestion_airflow.Py.Value.{Host, Value, null, bool, int, float, text, list, dict}
use ingestion_airflow.Py.Dict.{Dict, get}
use ingestion_airflow.Config.Steps.{subscript_text}
use ingestion_airflow.Config.Parse.{or_none}
use ingestion_airflow.Runtime.ObjectStore.{ObjectStoreConfig}
use ingestion_airflow.Runtime.Env.{build_contracts_token_provider}
use ingestion_airflow.Dags.{Dag, TaskEnv}
use ingestion_airflow.Dags.Core.{Registry}
use ingestion_airflow.Dags.Start.{StartTask}

-- `contract_version` of a manifest, where it is a text with content.
abbrev pub version_text : Value → Option String
version_text (text s) = or_none (strip s)
version_text value = none

abbrev pub optional_value : Option String → Value
optional_value none = null
optional_value (some s) = text s

-- The contract version that is configured, else the manifest's, if there is a manifest to read.
abbrev pub version_of :
    TaskEnv → ObjectStoreConfig → Option String → Option String → Result (Option String)
version_of e store (some version) manifest_key = ok (some version)
version_of e store none none = ok none
version_of e store none (some manifest_key) = if str_eq manifest_key "" then ok none else (do
  manifest_payload ← e.client.get_json store manifest_key
  ok (version_text (get manifest_payload "contract_version")))

-- What `resolve_replay_input` returns; `object_key_name` is the strategy's.
abbrev pub replay_input :
    (object_key_name object_key : String)
    → (manifest_key : Option String) → (version : String)
    → (parent_run_id replay_reason : Option String) → Dict
replay_input object_key_name object_key manifest_key version parent_run_id replay_reason =
    (object_key_name, text object_key)
    ∷ ("validation_manifest_key", optional_value manifest_key)
    ∷ ("contract_version", text version)
    ∷ ("parent_run_id", optional_value parent_run_id)
    ∷ ("replay_reason", optional_value replay_reason)
    ∷ []

-- `start_replay_run` of a DAG: what it returns and what it records of a failure.
abbrev pub start_replay :
    (d : Dag)
    → (target_table_curated : d.Config → String) → Host
    → (object_key_name : String) → Dict
    → StartTask d
start_replay d target_table_curated host object_key_name replay_input = record {
  build_context = λ config run_id. do
    object_key ← subscript_text host replay_input object_key_name
    ok (
        ("run_id", text run_id)
        ∷ ("pipeline_id", text (d.pipeline_id config))
        ∷ ("target_table_curated", text (target_table_curated config))
        ∷ (object_key_name, text object_key)
        ∷ ("validation_manifest_key", get replay_input "validation_manifest_key")
        ∷ ("parent_run_id", get replay_input "parent_run_id")
        ∷ ("replay_reason", get replay_input "replay_reason")
        ∷ ("replayed_contract_version", get replay_input "contract_version")
        ∷ []);
  failure =
      ("failed_stage", text "start_replay_run")
      ∷ (object_key_name, get replay_input object_key_name)
      ∷ ("parent_run_id", get replay_input "parent_run_id")
      ∷ [];
  with_store = true;
}

-- `fetch_contract` of a replay asks for the version that was resolved.
unfoldable pub fetch_replayed :
    TaskEnv → Registry → (url namespace name : String) → (replay_input : Dict) → Result Dict
fetch_replayed e registry url namespace name replay_input = do
  token_provider ← build_contracts_token_provider e.host registry.request_oidc_access_token
  version ← subscript_text e.host replay_input "contract_version"
  registry.fetch url token_provider namespace name (some version)
