-- ===== src/Invariant/Frame.antt =====
-- Methods that leave the Tasks as they are.
use semi_automated_research.Base.{String, refl, Bool, List}
use semi_automated_research.Base.Exec.{write_unless, Error}
use semi_automated_research.Base.Exec.Keeps.{Keeps, Keeps-write_unless}
use semi_automated_research.Db.Models.{Task, ComputeJob}
use semi_automated_research.Db.Session.{Db, Session, new_id, utc_now, the_task, with_new_job}
use semi_automated_research.Db.Session.Guard.{flush, select}
use semi_automated_research.EventLog.{Entry, append}
use semi_automated_research.Invariant.Sees.{
  IsApart, Sees, flush-Sees, select-Sees, new_id-Sees, utc_now-Sees, the_task-Sees, append-Sees,
}

abbrev tasks_of : Db → List Task
tasks_of db = db.tasks

abbrev pub HasTasks : List Task → Session → Type 0
HasTasks ts = Sees tasks_of ts

tasks_of-IsApart : IsApart tasks_of
tasks_of-IsApart = record { at = λ db es ps. refl }

module _ (ts : List Task) where
  pub flush-HasTasks : Keeps (HasTasks ts) flush
  flush-HasTasks = flush-Sees tasks_of ts

  pub select-HasTasks : {A : Type 0} (f : Db → A) → Keeps (HasTasks ts) (select f)
  select-HasTasks f = select-Sees tasks_of ts f

  pub new_id-HasTasks : (prefix : String) → Keeps (HasTasks ts) (new_id prefix)
  new_id-HasTasks prefix = new_id-Sees tasks_of ts prefix

  pub utc_now-HasTasks : Keeps (HasTasks ts) utc_now
  utc_now-HasTasks = utc_now-Sees tasks_of ts

  pub the_task-HasTasks : (id : String) → Keeps (HasTasks ts) (the_task id)
  the_task-HasTasks id = the_task-Sees tasks_of ts id

  pub insert_job-HasTasks :
      (test : Session → Bool) (e : Error) (j : ComputeJob)
      → Keeps (HasTasks ts) (write_unless test e (with_new_job j))
  insert_job-HasTasks test e j = Keeps-write_unless _ _ _ λ s h free. h

  pub append-HasTasks : (a : Entry) → Keeps (HasTasks ts) (append a)
  append-HasTasks a = append-Sees tasks_of ts tasks_of-IsApart a
