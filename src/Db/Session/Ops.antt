-- ===== src/Db/Session/Ops.antt =====
-- The state of a session, the clock and the ids that it draws, and reading and writing rows.
use semi_automated_research.Base.{
  ℕ, ◌+◌, String, Option, none, some, List, ◌==◌, string_eq, ◌++◌, [], ◌∷◌, f_string, if◌then◌else◌,
}
use semi_automated_research.Base.Exec.{Exec, ok, gets, or_raise, lookup_error, ◌>>=◌, modify}
use semi_automated_research.Db.Table.{find, store}
use semi_automated_research.Db.Models.{
  Project, TaskDependency, TaskArtifact, Task, Event, ComputeJob, Artifact, project_row, task_row,
  compute_job_row, artifact_row,
}

pub record Db : Type 0 where
  pub projects : List Project
  pub task_dependencies : List TaskDependency
  pub task_artifacts : List TaskArtifact
  pub tasks : List Task
  pub events : List Event
  pub compute_jobs : List ComputeJob
  pub artifacts : List Artifact

-- What `uuid4().hex` and the clock answer, by the number of the call, and the order in which the
-- database reads the rows of `tasks` for a query that asks for no order: it hangs on the indexes.
pub record Env : Type 0 where
  pub uuid4_hex : ℕ → String
  pub utc_clock : ℕ → ℕ
  pub scan : List Task → List Task

pub record Session : Type 0 where
  pub env : Env
  pub calls : ℕ
  pub flushed : Db
  pub db : Db
  pub new_events : List Event

-- `utc_now()`.
unfoldable pub utc_now : Exec Session ℕ
utc_now s = (ok (s.env.utc_clock s.calls), record s { calls = s.calls + 1 })

-- `new_id(prefix)`.
unfoldable pub new_id : String → Exec Session String
new_id prefix s =
    (ok (f_string (prefix ∷ "_" ∷ s.env.uuid4_hex s.calls ∷ [])), record s { calls = s.calls + 1 })

-- The value of `given or new_id(prefix)`, and the number of calls made by then: the empty text counts as
-- missing.
unfoldable pub given_or_drawn : Option String → String → Session → String × ℕ
given_or_drawn none prefix s = (f_string (prefix ∷ "_" ∷ s.env.uuid4_hex s.calls ∷ []), s.calls + 1)
given_or_drawn (some given) prefix s =
    if given == ""
    then (f_string (prefix ∷ "_" ∷ s.env.uuid4_hex s.calls ∷ []), s.calls + 1)
    else (given, s.calls)

-- `given or new_id(prefix)`.
unfoldable pub or_new_id : Option String → String → Exec Session String
or_new_id given prefix s =
    let (i, n) = given_or_drawn given prefix s in (ok i, record s { calls = n })

-- The value of `given or utc_now()`, and the number of calls made by then.
abbrev pub given_or_now : Option ℕ → Session → ℕ × ℕ
given_or_now none s = (s.env.utc_clock s.calls, s.calls + 1)
given_or_now (some given) s = (given, s.calls)

-- `given or utc_now()`.
unfoldable pub or_utc_now : Option ℕ → Exec Session ℕ
or_utc_now given s = let (t, n) = given_or_now given s in (ok t, record s { calls = n })

-- The object behind a reference to a Task or a ComputeJob of this session, and a write to it.
unfoldable pub the_task : String → Exec Session Task
the_task id = do found ← gets (λ s. find id s.db.tasks); or_raise found lookup_error

unfoldable pub the_job : String → Exec Session ComputeJob
the_job id = do found ← gets (λ s. find id s.db.compute_jobs); or_raise found lookup_error

abbrev pub with_task : Task → Session → Session
with_task t s = record s { db = record s.db { tasks = store t s.db.tasks } }

abbrev pub with_job : ComputeJob → Session → Session
with_job j s = record s { db = record s.db { compute_jobs = store j s.db.compute_jobs } }

abbrev pub with_project : Project → Session → Session
with_project p s = record s { db = record s.db { projects = store p s.db.projects } }

abbrev pub with_event : Event → Session → Session
with_event e s = record s {
  db = record s.db { events = s.db.events ++ e ∷ [] };
  new_events = s.new_events ++ e ∷ [];
}

unfoldable pub set_task : Task → Exec Session Unit
set_task t = modify (with_task t)

unfoldable pub set_job : ComputeJob → Exec Session Unit
set_job j = modify (with_job j)

-- `session.add(row)`, at the end of its table.
abbrev pub with_new_project : Project → Session → Session
with_new_project p s = record s { db = record s.db { projects = s.db.projects ++ p ∷ [] } }

abbrev pub with_new_task : Task → Session → Session
with_new_task t s = record s { db = record s.db { tasks = s.db.tasks ++ t ∷ [] } }

abbrev pub with_new_dependency : TaskDependency → Session → Session
with_new_dependency d s = record s {
  db = record s.db { task_dependencies = s.db.task_dependencies ++ d ∷ [] };
}

abbrev pub with_new_job : ComputeJob → Session → Session
with_new_job j s = record s { db = record s.db { compute_jobs = s.db.compute_jobs ++ j ∷ [] } }

abbrev pub with_new_artifact : Artifact → Session → Session
with_new_artifact a s = record s { db = record s.db { artifacts = s.db.artifacts ++ a ∷ [] } }

abbrev pub with_new_task_artifact : TaskArtifact → Session → Session
with_new_task_artifact a s = record s {
  db = record s.db { task_artifacts = s.db.task_artifacts ++ a ∷ [] };
}

abbrev pub with_artifact : Artifact → Session → Session
with_artifact a s = record s { db = record s.db { artifacts = store a s.db.artifacts } }

-- Assignments to the columns of a row that the session holds.
unfoldable pub edit_task : String → (Task → Task) → Exec Session Unit
unfolding the_task set_task
edit_task id f = do t ← the_task id; set_task (f t)

unfoldable pub edit_job : String → (ComputeJob → ComputeJob) → Exec Session Unit
unfolding the_job set_job
edit_job id f = do j ← the_job id; set_job (f j)

unfoldable pub edit_artifact : String → (Artifact → Artifact) → Exec Session Unit
edit_artifact id f = do
  found ← gets (λ s. find id s.db.artifacts)
  a ← or_raise found lookup_error
  modify (with_artifact (f a))
