-- ===== src/Runtime/Artifacts.antt =====
-- The object keys that ingestion_airflow/runtime.py builds for a run.
use package.text.Mathlib.TextLemmas.{append_cancel_left, append_cancel_right}
use ingestion_airflow.Common.{String, ◌≡◌, ◌≢◌, List, [], ◌∷◌}
use ingestion_airflow.Py.Text.{concat}

-- The dictionaries that the three functions return; `object_key` is `accepted_object_key` for the
-- hash-diff strategy and `delta_object_key` for the others.
pub record Artifacts : Type 0 where
  pub object_key : String
  pub validation_error_key : String
  pub validation_manifest_key : String

unfoldable pub base_key : String → String → String → String
base_key namespace name run_id = concat (namespace ∷ "/" ∷ name ∷ "/run_id=" ∷ run_id ∷ [])

unfoldable pub build_hashdiff_artifacts : String → String → String → Artifacts
build_hashdiff_artifacts namespace name run_id =
    let accepted_base_key = concat (base_key namespace name run_id ∷ "/accepted" ∷ []) in
    record {
      object_key = concat (accepted_base_key ∷ "/accepted_snapshot.ndjson.gz" ∷ []);
      validation_error_key = concat (accepted_base_key ∷ "/errors.ndjson.gz" ∷ []);
      validation_manifest_key = concat (accepted_base_key ∷ "/manifest.json" ∷ []);
    }

unfoldable pub build_incremental_audit_artifacts : String → String → String → Artifacts
build_incremental_audit_artifacts namespace name run_id =
    let delta_base_key = concat (base_key namespace name run_id ∷ "/delta" ∷ []) in
    record {
      object_key = concat (delta_base_key ∷ "/accepted_delta.ndjson.gz" ∷ []);
      validation_error_key = concat (delta_base_key ∷ "/errors.ndjson.gz" ∷ []);
      validation_manifest_key = concat (delta_base_key ∷ "/manifest.json" ∷ []);
    }

unfoldable pub build_logical_cdc_artifacts : String → String → String → Artifacts
build_logical_cdc_artifacts namespace name run_id =
    let delta_base_key = concat (base_key namespace name run_id ∷ "/wal_delta" ∷ []) in
    record {
      object_key = concat (delta_base_key ∷ "/accepted_delta.ndjson.gz" ∷ []);
      validation_error_key = concat (delta_base_key ∷ "/errors.ndjson.gz" ∷ []);
      validation_manifest_key = concat (delta_base_key ∷ "/manifest.json" ∷ []);
    }

concat_cons_cancel :
    (s : String) (xs ys : List String) → concat (s ∷ xs) ≡ concat (s ∷ ys) → concat xs ≡ concat ys
unfolding concat
concat_cons_cancel s xs ys e = append_cancel_left s (concat xs) (concat ys) e

concat_head_cancel : (s t : String) (xs : List String) → concat (s ∷ xs) ≡ concat (t ∷ xs) → s ≡ t
unfolding concat
concat_head_cancel s t xs e = append_cancel_right s t (concat xs) e

base_key_injective :
    (namespace name r s : String) → base_key namespace name r ≡ base_key namespace name s → r ≡ s
unfolding base_key
base_key_injective namespace name r s e = concat_head_cancel r s [] (
    concat_cons_cancel "/run_id=" _ _ (
      concat_cons_cancel name _ _
        (concat_cons_cancel "/" _ _ (concat_cons_cancel namespace _ _ e))))

under_base :
    (b c folder file : String)
    → concat (concat (b ∷ folder ∷ []) ∷ file ∷ []) ≡ concat (concat (c ∷ folder ∷ []) ∷ file ∷ [])
    → b ≡ c
under_base b c folder file e =
    concat_head_cancel b c (folder ∷ [])
      (concat_head_cancel (concat (b ∷ folder ∷ [])) (concat (c ∷ folder ∷ [])) (file ∷ []) e)

-- Two runs of one contract write to different objects: with different run ids, each of the three
-- keys of each strategy differs.
pub artifacts_of_runs_differ :
    (namespace name r s : String)
    → r ≢ s
    → ((build_hashdiff_artifacts namespace name r).object_key
        ≢ (build_hashdiff_artifacts namespace name s).object_key)
      × ((build_hashdiff_artifacts namespace name r).validation_error_key
          ≢ (build_hashdiff_artifacts namespace name s).validation_error_key)
      × ((build_hashdiff_artifacts namespace name r).validation_manifest_key
          ≢ (build_hashdiff_artifacts namespace name s).validation_manifest_key)
      × ((build_incremental_audit_artifacts namespace name r).object_key
          ≢ (build_incremental_audit_artifacts namespace name s).object_key)
      × ((build_incremental_audit_artifacts namespace name r).validation_error_key
          ≢ (build_incremental_audit_artifacts namespace name s).validation_error_key)
      × ((build_incremental_audit_artifacts namespace name r).validation_manifest_key
          ≢ (build_incremental_audit_artifacts namespace name s).validation_manifest_key)
      × ((build_logical_cdc_artifacts namespace name r).object_key
          ≢ (build_logical_cdc_artifacts namespace name s).object_key)
      × ((build_logical_cdc_artifacts namespace name r).validation_error_key
          ≢ (build_logical_cdc_artifacts namespace name s).validation_error_key)
      × ((build_logical_cdc_artifacts namespace name r).validation_manifest_key
          ≢ (build_logical_cdc_artifacts namespace name s).validation_manifest_key)
unfolding build_hashdiff_artifacts build_incremental_audit_artifacts build_logical_cdc_artifacts
artifacts_of_runs_differ namespace name r s ne = (
  apart "/accepted" _,
  apart "/accepted" _,
  apart "/accepted" _,
  apart "/delta" _,
  apart "/delta" _,
  apart "/delta" _,
  apart "/wal_delta" _,
  apart "/wal_delta" _,
  apart "/wal_delta" _,
)
  where
    apart :
        (folder file : String)
        → concat (concat (base_key namespace name r ∷ folder ∷ []) ∷ file ∷ [])
          ≢ concat (concat (base_key namespace name s ∷ folder ∷ []) ∷ file ∷ [])
    apart folder file e = ne (base_key_injective namespace name r s (under_base _ _ folder file e))

hashdiff_layout :
    (build_hashdiff_artifacts "sales" "orders" "run-123").object_key
    ≡ "sales/orders/run_id=run-123/accepted/accepted_snapshot.ndjson.gz"
unfolding build_hashdiff_artifacts base_key concat
hashdiff_layout = λ _. "sales/orders/run_id=run-123/accepted/accepted_snapshot.ndjson.gz"
