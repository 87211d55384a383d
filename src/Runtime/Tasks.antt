-- ===== src/Runtime/Tasks.antt =====
-- `get_missing_return_value_tasks` of ingestion_airflow/task_runtime.py.
use ingestion_airflow.Common.{
  String, ◌≡◌, refl, ◌↔◌, Bool, true, false, Option, none, some, List, [], ◌∷◌, keep, All,
}
use ingestion_airflow.Py.Value.{Value}

abbrev is_missing : Option Value → Bool
is_missing none = true
is_missing (some v) = false

-- `xcom_pull` gives the value that a task returned, `none` where it left none: a task that returned
-- None has left a value.
unfoldable pub get_missing_return_value_tasks :
    (xcom_pull : String → Option Value) → List String → List String
get_missing_return_value_tasks xcom_pull task_ids =
    keep (λ task_id. is_missing (xcom_pull task_id)) task_ids

-- Every task of the list left a value.
abbrev pub HasReturned : (String → Option Value) → String → Type 0
HasReturned xcom_pull task_id = (v : Value) × (xcom_pull task_id ≡ some v)

-- No task is reported exactly where every task of the list left a value, be it None.
pub missing_tasks-eq-nil_iff :
    (xcom_pull : String → Option Value) (task_ids : List String)
    → (get_missing_return_value_tasks xcom_pull task_ids ≡ [])
      ↔ All (HasReturned xcom_pull) task_ids
unfolding get_missing_return_value_tasks
missing_tasks-eq-nil_iff xcom_pull [] = (λ h. tt, λ h. refl)
missing_tasks-eq-nil_iff xcom_pull (t ∷ ts) =
    go (xcom_pull t) refl (missing_tasks-eq-nil_iff xcom_pull ts)
  where
    go :
        (o : Option Value)
        → xcom_pull t ≡ o
        → ((get_missing_return_value_tasks xcom_pull ts ≡ []) ↔ All (HasReturned xcom_pull) ts)
        → (get_missing_return_value_tasks xcom_pull (t ∷ ts) ≡ [])
          ↔ All (HasReturned xcom_pull) (t ∷ ts)
    go none e ih = (λ h. absurd (cc (rw e at h)), λ h. let (v, k) = h.0 in absurd (cc))
    go (some v) e ih = (λ h. ((v, e), ih.0 (rw e at h)), λ h. rw e (ih.1 h.1))
