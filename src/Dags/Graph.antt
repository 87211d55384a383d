-- ===== src/Dags/Graph.antt =====
-- How a DAG of dags/ calls its tasks: a task runs once the tasks whose results it takes have returned, the
-- last task (`TriggerRule.ALL_DONE`) runs in any case.
pub mod Starts
pub mod Runs
use ingestion_airflow.Common.{ℕ, String, Bool, true, false, Option, none, some, List, [], ◌∷◌}
use ingestion_airflow.Py.Exc.{Result, ok, raised}
use ingestion_airflow.Py.Dict.{DictOf, Dict, lookup}
use ingestion_airflow.Db.Tables.{AuditDb, Action}
use ingestion_airflow.Dags.Finalize.{Xcom}

-- What a task has returned, if it has.
abbrev pub returned : Result Dict → Option Dict
returned (ok d) = some d
returned (raised e) = none

-- A task leaves its result, if any, and the tables; one that does not run leaves the tables.
abbrev pub Task : Type 0
Task = AuditDb → Option Dict × AuditDb

abbrev pub task : Action Dict → Task
task run db = (returned (run db).0, (run db).1)

-- A task that takes the result of another, of two, three or four others.
abbrev pub task_of : Option Dict → (Dict → Action Dict) → Task
task_of none run db = (none, db)
task_of (some a) run db = task (run a) db

abbrev pub task_of_two : Option Dict → Option Dict → (Dict → Dict → Action Dict) → Task
task_of_two none b run db = (none, db)
task_of_two (some a) b run db = task_of b (run a) db

abbrev pub task_of_three :
    Option Dict → Option Dict → Option Dict → (Dict → Dict → Dict → Action Dict) → Task
task_of_three none b c run db = (none, db)
task_of_three (some a) b c run db = task_of_two b c (run a) db

abbrev pub task_of_four :
    Option Dict
    → Option Dict
    → Option Dict
    → Option Dict
    → (Dict → Dict → Dict → Dict → Action Dict)
    → Task
task_of_four none b c k run db = (none, db)
task_of_four (some a) b c k run db = task_of_three b c k (run a) db

abbrev pub task_of_five :
    Option Dict
    → Option Dict
    → Option Dict
    → Option Dict
    → Option Dict
    → (Dict → Dict → Dict → Dict → Dict → Action Dict)
    → Task
task_of_five none b c k l run db = (none, db)
task_of_five (some a) b c k l run db = task_of_four b c k l (run a) db

-- The results by the ids of the tasks.
abbrev or_none_returned : Option (Option Dict) → Option Dict
or_none_returned none = none
or_none_returned (some r) = r

abbrev pub xcom_of : DictOf (Option Dict) → Xcom
xcom_of results task_id = or_none_returned (lookup task_id results)

-- A run of a DAG as its last task sees it: the start, then the tasks that take the context of the
-- run, then the last task.
abbrev pub run_tasks :
    (start : Task)
    → (stages : Option Dict → AuditDb → DictOf (Option Dict) × AuditDb)
    → (finalize : Option Dict → Xcom → Action Dict) → Action Dict
run_tasks start stages finalize db =
    let started = start db in
    let staged = stages started.0 started.1 in finalize started.0 (xcom_of staged.0) staged.1

-- Two tasks of which neither waits for the other, one after the other in either order.
abbrev pub in_order : Bool → Task → Task → AuditDb → Option Dict × Option Dict × AuditDb
in_order true left right db = let x = left db in let y = right x.1 in (x.0, y.0, y.1)
in_order false left right db = let y = right db in let x = left y.1 in (x.0, y.0, x.1)
