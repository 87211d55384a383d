-- ===== src/Dags/Replay/Delta.antt =====
-- `resolve_replay_input` of dags/replay_contract_incremental_audit_from_minio.py and of
-- dags/replay_contract_logical_cdc_from_minio.py.
pub mod Resolves
use ingestion_airflow.Common.{
  String, Bool, true, false, Option, none, some, List, [], ◌∷◌, str_eq, if◌then◌else◌,
}
use ingestion_airflow.Py.Exc.{Exception, Result, ok, raised, raise, airflow_fail}
use ingestion_airflow.Py.Text.{concat, join}
use ingestion_airflow.Py.Text.Strip.{strip}
use ingestion_airflow.Py.Value.{Host, text, list, str}
use ingestion_airflow.Py.Dict.{Dict, get}
use ingestion_airflow.Config.Parse.{or_none}
use ingestion_airflow.Runtime.ObjectStore.{ObjectStoreConfig}
use ingestion_airflow.Runtime.Artifacts.{Artifacts}
use ingestion_airflow.Db.Tables.{AuditDb}
use ingestion_airflow.Db.Stages.{read_stage_audit_metrics}
use ingestion_airflow.Dags.{Dag, TaskEnv, load_run_config, store_of}
use ingestion_airflow.Dags.Finalize.{or_else, texts}
use ingestion_airflow.Dags.Replay.{version_text, replay_input}

-- The arguments of `_replay_input_error`.
pub record ReplayProblem : Type 0 where
  pub problem : String
  pub details : List String

-- What the two DAGs do differently: the stage of the parent run, its object keys and the texts.
pub record DeltaReplay (d : Dag) : Type 0 where
  pub namespace : d.Config → String
  pub name : d.Config → String
  pub contract_version : d.Config → Option String
  pub parent_run_id : d.Config → String
  pub replay_reason : d.Config → Option String
  pub extract_stage : String
  pub artifacts : String → String → String → Artifacts
  pub title : String
  pub error_name : String
  pub announced : String
  pub no_delta_key : (parent_run_id : String) → ReplayProblem
  pub unresolved : ReplayProblem
  pub no_manifest :
      (parent_run_id : String) (parent_stage_metrics_found : Bool)
      (normalized_manifest_key expected_delta_key : String)
      → ReplayProblem
  pub no_version : ReplayProblem
  pub no_delta : (normalized_delta_key : String) → ReplayProblem

-- The task goes on, refuses its input, or a call that it makes raises.
pub data Resolution {ℓ} (A : Type ℓ) : Type ℓ where
  resolved : A → Resolution A
  refused : ReplayProblem → Resolution A
  failed : Exception → Resolution A

infixl 5 ◌>>=◌
abbrev pub ◌>>=◌ {ℓ κ} :
    {A : Type ℓ} {B : Type κ} → Resolution A → (A → Resolution B) → Resolution B
resolved a >>= f = f a
refused p >>= f = refused p
failed e >>= f = failed e

abbrev pub called {ℓ} : {A : Type ℓ} → Result A → Resolution A
called (ok a) = resolved a
called (raised e) = failed e

-- What `_replay_input_error` pushes under the XCom key `replay_input_error`.
unfoldable pub replay_input_error : String → String → ReplayProblem → Dict
replay_input_error title error_name p =
    ("error", text error_name)
    ∷ ("problem", text p.problem)
    ∷ ("details", list (texts p.details))
    ∷ ("message", text (join "\n" (title ∷ concat ("Problem: " ∷ p.problem ∷ []) ∷ p.details)))
    ∷ []

-- `str(stage_metrics.get(key) or "").strip() or None`
unfoldable pub key_text : Host → Dict → String → Option String
key_text host stage_metrics key =
    or_none (strip (str host (or_else (get stage_metrics key) (text ""))))

module _ (d : Dag) (r : DeltaReplay d) (e : TaskEnv) where
  unfoldable pub recorded_key :
      d.Config → Dict → Option String → Resolution (String × Option String)
  recorded_key config stage_metrics none = refused (r.no_delta_key (r.parent_run_id config))
  recorded_key config stage_metrics (some key) =
      resolved (key, key_text e.host stage_metrics "manifest_key")

  unfoldable pub required : String × Option String → Resolution (String × Option String)
  required keys = if str_eq keys.0 "" then refused r.unresolved else resolved keys

  unfoldable pub expected : d.Config → Artifacts
  expected config = r.artifacts (r.namespace config) (r.name config) (r.parent_run_id config)

  -- The keys that the parent run's stage recorded, else those that its run id gives; no metrics and
  -- empty metrics are alike.
  unfoldable pub delta_keys : d.Config → Option Dict → Resolution (String × Option String)
  delta_keys config none =
      resolved ((expected config).object_key, some (expected config).validation_manifest_key)
  delta_keys config (some []) =
      resolved ((expected config).object_key, some (expected config).validation_manifest_key)
  delta_keys config (some (entry ∷ rest)) =
      recorded_key config (entry ∷ rest) (key_text e.host (entry ∷ rest) "delta_object_key")

  abbrev pub are_found : Option Dict → Bool
  are_found none = false
  are_found (some []) = false
  are_found (some (entry ∷ rest)) = true

  unfoldable pub present_or : ReplayProblem → Bool → Resolution (Unit {0})
  present_or p true = resolved tt
  present_or p false = refused p

  unfoldable pub version_or : Option String → Resolution String
  version_or none = refused r.no_version
  version_or (some version) = resolved version

  unfoldable pub manifest_version :
      d.Config → ObjectStoreConfig → Bool → String → Resolution (Option String)
  manifest_version config store metrics_found manifest_key = do
    found ← called (e.client.object_exists store manifest_key)
    _ ←
        present_or
          (r.no_manifest (r.parent_run_id config) metrics_found
            (e.client.normalize_key store manifest_key)
            (e.client.normalize_key store (expected config).object_key))
          found
    manifest_payload ← called (e.client.get_json store manifest_key)
    resolved (version_text (get manifest_payload "contract_version"))

  unfoldable pub delta_version :
      d.Config
      → ObjectStoreConfig
      → Bool
      → Option String
      → Option String
      → Resolution (Option String)
  delta_version config store metrics_found (some version) manifest_key = resolved (some version)
  delta_version config store metrics_found none none = resolved none
  delta_version config store metrics_found none (some manifest_key) =
      if str_eq manifest_key ""
      then resolved none
      else manifest_version config store metrics_found manifest_key

  -- `AirflowFailException(…)` of a refusal has one text; the details are in the XCom value.
  abbrev pub refusal : Exception
  refusal = record { kind = airflow_fail; message = r.announced }

  unfoldable pub resolution : AuditDb → Resolution Dict
  resolution db = do
    config ← called (load_run_config d e)
    store ← called (store_of d e config)
    _ ← called (e.client.connect store)
    stage_metrics ←
        called (read_stage_audit_metrics e.formats (r.parent_run_id config) r.extract_stage db).0
    found ← delta_keys config stage_metrics
    keys ← required found
    version ←
        delta_version config store (are_found stage_metrics) (r.contract_version config) keys.1
    contract_version ← version_or version
    exists ← called (e.client.object_exists store keys.0)
    _ ← present_or (r.no_delta (e.client.normalize_key store keys.0)) exists
    resolved (
        replay_input "delta_object_key" keys.0 keys.1 contract_version
          (some (r.parent_run_id config)) (r.replay_reason config))

  abbrev pub reported : Resolution Dict → Result Dict × Option Dict
  reported (resolved found) = (ok found, none)
  reported (refused p) = (raised refusal, some (replay_input_error r.title r.error_name p))
  reported (failed exc) = (raised exc, none)

  -- With the XCom value that a refusal pushes.
  unfoldable pub resolve_replay_input : AuditDb → Result Dict × Option Dict
  resolve_replay_input db = reported (resolution db)
