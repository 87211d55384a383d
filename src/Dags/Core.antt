-- ===== src/Dags/Core.antt =====
-- The tasks that fetch the contract and read the checkpoint, and what all of the DAGs call of ingestion_core.
use ingestion_airflow.Common.{◌≡◌, refl, String, Bool, true, false, Option, none, some, [], ◌∷◌}
use ingestion_airflow.Py.Exc.{Result, ok, raised, ◌>>=◌}
use ingestion_airflow.Py.Text.{concat}
use ingestion_airflow.Py.Value.{Value, text, dict}
use ingestion_airflow.Py.Dict.{Dict, get, entries, to_fields}
use ingestion_airflow.Runtime.Env.{OidcClientCredentialsConfig, build_contracts_token_provider}
use ingestion_airflow.Runtime.Artifacts.{Artifacts}
use ingestion_airflow.Db.Tables.{AuditDb, Action}
use ingestion_airflow.Db.Checkpoints.{read_pipeline_checkpoint}
use ingestion_airflow.Dags.Finalize.{or_else}
use ingestion_airflow.Dags.{Dag, TaskEnv, and_then, lift, load_run_config}

-- The contract registry and its contracts. `fetch` is `ContractRegistryClient(…).fetch_contract(…).to_dict()`.
pub record Registry : Type 1 where
  pub request_oidc_access_token : OidcClientCredentialsConfig → Result String
  pub fetch :
      (url : String) (token_provider : Option (Unit {0} → Result String)) (namespace name : String)
      (version : Option String)
      → Result Dict
  pub Contract : Type 0
  pub from_registry_payload : Dict → Result Contract
  pub contract_id : Contract → Value
  pub version : Contract → Value
  pub checksum : Contract → Value

unfoldable pub fetch_with :
    TaskEnv → Registry → (url namespace name : String) → (version : Option String) → Result Dict
fetch_with e registry url namespace name version = do
  token_provider ← build_contracts_token_provider e.host registry.request_oidc_access_token
  registry.fetch url token_provider namespace name version

abbrev or_no_checkpoint : Option Dict → Dict
or_no_checkpoint none = []
or_no_checkpoint (some d) = d

-- `read_pipeline_checkpoint(audit_engine, config.pipeline_id) or {}`
unfoldable pub read_checkpoint : Dag → TaskEnv → Action Dict
read_checkpoint d e db = and_then (lift (load_run_config d e) db) λ config db.
    and_then (read_pipeline_checkpoint e.formats (d.pipeline_id config) db)
      λ checkpoint db. (ok (or_no_checkpoint checkpoint), db)

-- The dictionary of the artifacts as a run context has it.
abbrev pub artifacts_value : String → Artifacts → Value
artifacts_value object_key_name artifacts = dict (
    to_fields (
      (object_key_name, text artifacts.object_key)
      ∷ ("validation_error_key", text artifacts.validation_error_key)
      ∷ ("validation_manifest_key", text artifacts.validation_manifest_key)
      ∷ []))

-- A dictionary that is an entry of another.
abbrev pub entries_of : Value → Dict
entries_of (dict fs) = entries fs
entries_of value = []

abbrev pub held_message : String → String
held_message pipeline_id =
    concat
      ("Pipeline lock is already held for " ∷ pipeline_id ∷ "; concurrent run is not allowed" ∷ [])

-- `extract_stage_payload.get("validation_error_object_key") or extract_stage_payload.get("error_object_key")`
abbrev pub error_key : Dict → Value
error_key extract =
    or_else (get extract "validation_error_object_key") (get extract "error_object_key")

abbrev pub manifest_key_of : Dict → Value
manifest_key_of extract =
    or_else (get extract "validation_manifest_key") (get extract "manifest_key")

abbrev pub is_present : Dict → Bool
is_present [] = false
is_present (entry ∷ rest) = true

-- `read_checkpoint` reads.
pub read_checkpoint-keeps : (d : Dag) (e : TaskEnv) (db : AuditDb) → (read_checkpoint d e db).1 ≡ db
unfolding read_checkpoint read_pipeline_checkpoint
read_checkpoint-keeps d e db = go (load_run_config d e)
  where
    go :
        (r : Result d.Config)
        → (and_then (lift r db) λ config db.
            and_then
              (read_pipeline_checkpoint e.formats (d.pipeline_id config) db)
              λ checkpoint db. (ok (or_no_checkpoint checkpoint), db)).1
          ≡ db
    go (ok config) = refl
    go (raised x) = refl
