-- ===== src/Dags/Inversion.antt =====
-- What went before, where a task or a stage has returned.
use ingestion_airflow.Common.{ℕ, String, ◌≡◌, refl, ap, ◌∙◌, sym, Option, none, some}
use ingestion_airflow.Py.Exc.{Exception, Result, ok, raised}
use ingestion_airflow.Py.Dict.{Dict}
use ingestion_airflow.Observability.{has_artifact_keys}
use ingestion_airflow.Db.Tables.{AuditDb, Formats, Action, parse_run_id}
use ingestion_airflow.Db.Stages.{start_stage_audit, finish_stage_audit}
use ingestion_airflow.Db.Keys.{with_run_id-keeps}
use ingestion_airflow.Dags.{
  Dag, TaskEnv, and_then, lift, except, enrich, scope_of, load_run_config, store_if,
  failure_payload,
}
use ingestion_airflow.Dags.Stage.{attempt_stage, fail_stage, execute_stage}
use ingestion_airflow.Dags.Graph.{
  returned, task, task_of, task_of_two, task_of_three, task_of_four, task_of_five,
}

pub after_and_then :
    {A B P : Type 0} (m : Result A × AuditDb) (k : A → Action B) (b : B) (out : AuditDb)
    → and_then m k ≡ (ok b, out)
    → ((a : A) (db : AuditDb) → m ≡ (ok a, db) → k a db ≡ (ok b, out) → P)
    → P
after_and_then (ok a, db) k b out h then = then a db refl h
after_and_then (raised x, db) k b out h then =
    let clash : raised x ≡ ok b = ap (λ o. o.0) h in absurd cc

pub after_lift :
    {A B P : Type 0} (r : Result A) (db : AuditDb) (k : A → Action B) (b : B) (out : AuditDb)
    → and_then (lift r db) k ≡ (ok b, out)
    → ((a : A) → r ≡ ok a → k a db ≡ (ok b, out) → P)
    → P
after_lift (ok a) db k b out h then = then a refl h
after_lift (raised x) db k b out h then = let clash : raised x ≡ ok b = ap (λ o. o.0) h in absurd cc

-- The checkpoints of a table.
abbrev pub Keeps : AuditDb → AuditDb → Type 0
Keeps before after = after.pipeline_checkpoint ≡ before.pipeline_checkpoint

and_then-Keeps :
    {A B : Type 0} (db : AuditDb) (m : Result A × AuditDb) (k : A → Action B)
    → Keeps db m.1
    → ((a : A) (after : AuditDb) → Keeps db after → Keeps db (k a after).1)
    → Keeps db (and_then m k).1
and_then-Keeps db (ok a, after) k h g = g a after h
and_then-Keeps db (raised x, after) k h g = h

start-Keeps :
    (formats : Formats) (now : ℕ) (run_id stage_name : String) (db : AuditDb)
    → Keeps db (start_stage_audit formats now run_id stage_name db).1
unfolding start_stage_audit
start-Keeps formats now run_id stage_name db =
    with_run_id-keeps (Keeps db) (parse_run_id formats run_id) _ db refl (λ u. refl)

finish-Keeps :
    (formats : Formats) (now : ℕ) (run_id stage_name status : String) (metrics_json : Option Dict)
    (error_text : Option String) (db : AuditDb)
    → Keeps db
        (finish_stage_audit formats now run_id stage_name status metrics_json error_text db).1
unfolding finish_stage_audit
finish-Keeps formats now run_id stage_name status metrics_json error_text db =
    with_run_id-keeps (Keeps db) (parse_run_id formats run_id) _ db refl (λ u. refl)

after_except :
    (m : Result Dict × AuditDb) (handle : Exception → Action Dict) (b : Dict) (out : AuditDb)
    → except m handle ≡ (ok b, out)
    → ((x : Exception) (db : AuditDb) → handle x db ≡ (ok b, out) → ⊥)
    → m ≡ (ok b, out)
after_except (ok a, db) handle b out h raises = h
after_except (raised x, db) handle b out h raises = absurd (raises x db h)

module _ (d : Dag) (e : TaskEnv) (run_id stage_name : String) (config : d.Config) where
  failed-raises :
      (x : Exception) (db out : AuditDb) (b : Dict)
      → fail_stage d e config run_id stage_name x db ≡ (ok b, out)
      → ⊥
  unfolding fail_stage
  failed-raises x db out b h =
      after_lift
        (enrich e none (scope_of d config run_id (some stage_name)) (failure_payload d e x)) db _ b
        out h
        λ payload h1 h2.
          after_and_then
            (finish_stage_audit e.formats e.finished run_id stage_name "failed" (some payload)
              (some x.message) db)
            _ b out h2 λ u after h3 h4. let clash : raised x ≡ ok b = ap (λ o. o.0) h4 in absurd cc

  finished-Keeps :
      (metrics : Dict) (after finished : AuditDb) (v : Unit {0})
      → finish_stage_audit e.formats e.finished run_id stage_name "success"
          (some metrics)
          none
          after
        ≡ (ok v, finished)
      → Keeps after finished
  finished-Keeps metrics after finished v h =
      ap (λ (o : Result (Unit {0}) × AuditDb). o.1.pipeline_checkpoint) (sym h)
      ∙ finish-Keeps e.formats e.finished run_id stage_name "success" (some metrics) none after

  begun :
      (db : AuditDb) (u : Unit {0}) (before : AuditDb)
      → start_stage_audit e.formats e.started run_id stage_name db ≡ (ok u, before)
      → Keeps db before
  begun db u before h =
      ap (λ (o : Result (Unit {0}) × AuditDb). o.1.pipeline_checkpoint) (sym h)
      ∙ start-Keeps e.formats e.started run_id stage_name db

  -- A stage that has returned has run its action, and keeps the checkpoints that the action left.
  after_attempt :
      {P : Type 0} (action : Action Dict) (db out : AuditDb) (b : Dict)
      → attempt_stage d e config run_id stage_name action db ≡ (ok b, out)
      → ((before after : AuditDb) (result : Dict)
          → Keeps db before
          → action before ≡ (ok result, after)
          → Keeps after out
          → P)
      → P
  unfolding attempt_stage
  after_attempt action db out b h then =
      after_and_then (start_stage_audit e.formats e.started run_id stage_name db) _ b out h
        λ u before h1 h2. after_and_then (action before) _ b out h2 λ result after acted h3.
          after_lift (store_if (has_artifact_keys e.host result) d e config) after _ b out h3
            λ store h4 h5.
              after_lift (enrich e store (scope_of d config run_id (some stage_name)) result) after
                _ b out h5
                λ metrics h6 h7.
                  after_and_then
                    (finish_stage_audit e.formats e.finished run_id stage_name "success"
                      (some metrics) none after)
                    _ b out h7
                    λ v finished h8 h9.
                      let same : finished ≡ out = ap (λ o. o.1) h9 in
                      then before after result (begun db u before h1) acted
                        (rw (← same) (finished-Keeps metrics after finished v h8))

pub after_stage :
    {P : Type 0} (d : Dag) (e : TaskEnv) (run_id stage_name : String) (action : Action Dict)
    (db out : AuditDb) (b : Dict)
    → execute_stage d e run_id stage_name action db ≡ (ok b, out)
    → ((before after : AuditDb) (result : Dict)
        → Keeps db before
        → action before ≡ (ok result, after)
        → Keeps after out
        → P)
    → P
unfolding execute_stage
after_stage d e run_id stage_name action db out b h then =
    after_lift (load_run_config d e) db _ b out h λ config loaded h1.
      after_attempt d e run_id stage_name config action db out b
        (after_except (attempt_stage d e config run_id stage_name action db)
          (fail_stage d e config run_id stage_name) b out h1
          (λ x after h2. failed-raises d e run_id stage_name config x after out b h2))
        then

-- A task that has returned has had the results that it takes.
pub task-some :
    (run : Action Dict) (db : AuditDb) (r : Dict)
    → (task run db).0 ≡ some r
    → run db ≡ (ok r, (task run db).1)
task-some run db r h = go (run db).0 refl h
  where
    go : (o : Result Dict) → (run db).0 ≡ o → returned o ≡ some r → run db ≡ (ok r, (run db).1)
    go (ok x) q g =
        let same : x ≡ r = cc in
        let done : (run db).0 ≡ ok r = rw same at q in λ i. (done i, (run db).1)
    go (raised x) q g = absurd cc

pub task_of-some :
    (o : Option Dict) (run : Dict → Action Dict) (db : AuditDb) (r : Dict)
    → (task_of o run db).0 ≡ some r
    → (a : Dict) × (o ≡ some a) × (run a db ≡ (ok r, (task_of o run db).1))
task_of-some none run db r h = absurd cc
task_of-some (some a) run db r h = (a, refl, task-some (run a) db r h)

pub task_of_two-some :
    (o p : Option Dict) (run : Dict → Dict → Action Dict) (db : AuditDb) (r : Dict)
    → (task_of_two o p run db).0 ≡ some r
    → (a b : Dict) × (o ≡ some a) × (p ≡ some b) × (run a b db ≡ (ok r, (task_of_two o p run db).1))
task_of_two-some none p run db r h = absurd cc
task_of_two-some (some a) p run db r h =
    let (b, q, g) = task_of-some p (run a) db r h in (a, b, refl, q, g)

task_of_three-some :
    (o p q : Option Dict) (run : Dict → Dict → Dict → Action Dict) (db : AuditDb) (r : Dict)
    → (task_of_three o p q run db).0 ≡ some r
    → (a b c : Dict) × (run a b c db ≡ (ok r, (task_of_three o p q run db).1))
task_of_three-some none p q run db r h = absurd cc
task_of_three-some (some a) p q run db r h =
    let (b, c, x, y, g) = task_of_two-some p q (run a) db r h in (a, b, c, g)

task_of_four-some :
    (o p q s : Option Dict) (run : Dict → Dict → Dict → Dict → Action Dict) (db : AuditDb)
    (r : Dict)
    → (task_of_four o p q s run db).0 ≡ some r
    → (a b c k : Dict) × (run a b c k db ≡ (ok r, (task_of_four o p q s run db).1))
task_of_four-some none p q s run db r h = absurd cc
task_of_four-some (some a) p q s run db r h =
    let (b, c, k, g) = task_of_three-some p q s (run a) db r h in (a, b, c, k, g)

pub task_of_five-some :
    (o p q s t : Option Dict) (run : Dict → Dict → Dict → Dict → Dict → Action Dict) (db : AuditDb)
    (r : Dict)
    → (task_of_five o p q s t run db).0 ≡ some r
    → (a b c k l : Dict) × (run a b c k l db ≡ (ok r, (task_of_five o p q s t run db).1))
task_of_five-some none p q s t run db r h = absurd cc
task_of_five-some (some a) p q s t run db r h =
    let (b, c, k, l, g) = task_of_four-some p q s t (run a) db r h in (a, b, c, k, l, g)
