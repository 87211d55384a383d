-- ===== src/Db/Runs/State.antt =====
-- What `finalize_pipeline_state` writes.
use ingestion_airflow.Common.{
  ℕ, ◌≤◌, String, ◌≡◌, ◌≢◌, refl, ◌∙◌, inl, inr, true, Option, none, some, List, [], ◌∷◌, arith,
  ltb, str_eq, eq_iff, eq_refl, if◌then◌else◌, Bool-cases, All,
}
use mathlib.Core.Path.{subst}
use mathlib.Core.List.{Mem, mem-cons_self, mem-cons_of_mem}
use ingestion_airflow.Db.Table.{first_where, upserted, first_where-upsert}
use ingestion_airflow.Db.Tables.{RunAudit, PipelineState, AuditDb}
use ingestion_airflow.Db.Runs.{
  later_run, latest_run, new_state, merge_state, is_state_of, finalize_pipeline_state,
}

-- No run of the pipeline in the table started later.
abbrev pub IsLatest : String → List RunAudit → RunAudit → Type 0
IsLatest p rows r =
    Mem r rows
    × (r.pipeline_id ≡ p)
    × All (λ x. x.pipeline_id ≡ p → x.started_at ≤ r.started_at) rows

-- What the latest run of a pipeline is, and when there is none.
abbrev pub IsLatestRun : String → List RunAudit → Option RunAudit → Type 0
IsLatestRun p rows none = All (λ x. x.pipeline_id ≢ p) rows
IsLatestRun p rows (some r) = IsLatest p rows r

none_later :
    (p : String) (r : RunAudit) (rows : List RunAudit)
    → All (λ x. x.pipeline_id ≢ p) rows
    → All (λ x. x.pipeline_id ≡ p → x.started_at ≤ r.started_at) rows
none_later p r [] h = tt
none_later p r (x ∷ rows) h = (λ e. absurd (h.0 e), none_later p r rows h.1)

later_than :
    (p : String) (b r : RunAudit) (rows : List RunAudit)
    → b.started_at ≤ r.started_at
    → All (λ x. x.pipeline_id ≡ p → x.started_at ≤ b.started_at) rows
    → All (λ x. x.pipeline_id ≡ p → x.started_at ≤ r.started_at) rows
later_than p b r [] le h = tt
later_than p b r (x ∷ rows) le h =
    (λ e. let k : x.started_at ≤ b.started_at = h.0 e in omega arith, later_than p b r rows le h.1)

other_pipeline :
    (p : String) (x : RunAudit) (rows : List RunAudit) (o : Option RunAudit)
    → x.pipeline_id ≢ p
    → IsLatestRun p rows o
    → IsLatestRun p (x ∷ rows) o
other_pipeline p x rows none d h = (d, h)
other_pipeline p x rows (some r) d h = (mem-cons_of_mem x h.0, h.1, (λ e. absurd (d e), h.2))

later_run-IsLatest :
    (p : String) (x : RunAudit) (rows : List RunAudit) (o : Option RunAudit)
    → x.pipeline_id ≡ p
    → IsLatestRun p rows o
    → IsLatest p (x ∷ rows) (later_run x o)
later_run-IsLatest p x rows none same h =
    (mem-cons_self, same, (λ e. omega arith, none_later p x rows h))
later_run-IsLatest p x rows (some b) same h = elim (Bool-cases (ltb x.started_at b.started_at)) [
  | inl less ↦
      let b_is_later : b ≡ later_run x (some b) = rw less in
      subst (IsLatest p (x ∷ rows)) b_is_later
        (mem-cons_of_mem x h.0, h.1, (λ e. ground arith, h.2))
  | inr more ↦
      let x_is_later : x ≡ later_run x (some b) = rw more in
      subst (IsLatest p (x ∷ rows)) x_is_later
        (mem-cons_self, same, (λ e. omega arith, later_than p b x rows (ground arith) h.2))
]

-- The run that the state is written from is one of the table, it is of the pipeline, and no run of
-- the pipeline in the table started later; and there is such a run unless the table has no run of
-- the pipeline.
pub latest_run-IsLatest :
    (p : String) (rows : List RunAudit) → IsLatestRun p rows (latest_run p rows)
unfolding latest_run
latest_run-IsLatest p [] = tt
latest_run-IsLatest p (x ∷ rows) = elim (Bool-cases (str_eq x.pipeline_id p)) [
  | inl same ↦ rw same (
      later_run-IsLatest p x rows (latest_run p rows) ((eq_iff x.pipeline_id p).0 same)
        (latest_run-IsLatest p rows))
  | inr differ ↦ rw differ (
      other_pipeline p x rows (latest_run p rows)
        (λ e. let k : str_eq x.pipeline_id p ≡ true = (eq_iff x.pipeline_id p).1 e in cc)
        (latest_run-IsLatest p rows))
]

unfoldable pub state_of : String → AuditDb → Option PipelineState
state_of p db = first_where (is_state_of p) db.pipeline_state

abbrev pub last_success : Option PipelineState → Option ℕ
last_success none = none
last_success (some r) = r.last_success_at

-- When a run ended, or else when it started.
abbrev pub ended_at : RunAudit → ℕ
ended_at r = elim r.finished_at [ none ↦ r.started_at | some t ↦ t ]

-- The state of a pipeline after its latest run, from what the state was before.
abbrev pub state_after : String → ℕ → RunAudit → Option PipelineState → PipelineState
state_after p now latest before = record {
  pipeline_id = p;
  last_run_at = some (ended_at latest);
  last_success_at =
      if str_eq latest.status "success" then some (ended_at latest) else last_success before;
  last_status = some latest.status;
  last_error = if str_eq latest.status "success" then none else latest.error_text;
  updated_at = now;
}

upserted_state :
    (p : String) (now : ℕ) (latest : RunAudit) (o : Option PipelineState)
    → ((r : PipelineState) → o ≡ some r → r.pipeline_id ≡ p)
    → upserted (λ _. true) (merge_state (new_state p now latest) now) (new_state p now latest) o
      ≡ some (state_after p now latest o)
upserted_state p now latest none h = refl
upserted_state p now latest (some r) h =
    λ i. some (record (state_after p now latest (some r)) { pipeline_id = h r refl i })

found_state :
    (p : String) (rows : List PipelineState) (r : PipelineState)
    → first_where (is_state_of p) rows ≡ some r
    → r.pipeline_id ≡ p
unfolding first_where
found_state p [] r e = absurd (cc)
found_state p (x ∷ rows) r e = elim (Bool-cases (str_eq x.pipeline_id p)) [
  | inl same ↦
      let x_is_r : x ≡ r = cc (rw same at e) in rw (← x_is_r) ((eq_iff x.pipeline_id p).0 same)
  | inr differ ↦ found_state p rows r (rw differ at e)
]

-- Where the pipeline has a run, its state after `finalize_pipeline_state` tells of the latest one:
-- when it ended or else started, its status, its error if it did not succeed. The time of the last success is that
-- run's if it succeeded, and else stays what it was before, or nothing.
pub finalize_state :
    (now : ℕ) (p : String) (db : AuditDb) (latest : RunAudit)
    → latest_run p db.run_audit ≡ some latest
    → state_of p (finalize_pipeline_state now p db).1
      ≡ some (state_after p now latest (state_of p db))
unfolding finalize_pipeline_state state_of
finalize_state now p db latest e = rw e (
    first_where-upsert (is_state_of p) (λ _. true) (merge_state (new_state p now latest) now)
      (new_state p now latest) (eq_refl p) (λ r h. h) db.pipeline_state
    ∙ upserted_state p now latest (first_where (is_state_of p) db.pipeline_state)
        (found_state p db.pipeline_state))
