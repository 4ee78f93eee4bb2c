-- ===== src/ProjectState.antt =====
-- services/project_state.py: `ProjectStateService`, which creates Projects, Tasks and ComputeJobs. An
-- object that a method returns is given by its id.
pub mod Rows
pub mod Valid
use semi_automated_research.Base.{
  ℕ, ◌+◌, String, Option, none, some, Bool, true, false, not, ◌&&◌, ◌||◌, List, [], ◌∷◌, ◌==◌,
  string_eq, nat_eq, any, f_string, if◌then◌else◌,
}
use semi_automated_research.Base.Json.{ℤ, Fields, str, empty, field, or_empty}
use semi_automated_research.Base.Exec.{
  Exec, pure, gets, raise_if, write_unless, integrity_error, value_error, ◌>>=◌, ◌>>◌,
}
use semi_automated_research.Domain.TaskStatus.{TaskStatus, task_status_value}
use semi_automated_research.Domain.ComputeStatus.{
  ComputeExecutionStatus, compute_execution_status_value,
}
use semi_automated_research.Domain.Project.{
  ProjectLifecycle, ProjectPhase, ProjectStage, TaskKind, TaskExecutor, project_lifecycle_value,
}
use semi_automated_research.Db.Table.{find}
use semi_automated_research.Db.Models.{
  Project, Task, TaskDependency, ComputeJob, project_row, task_row, compute_job_row,
}
use semi_automated_research.Db.Session.{
  Db, Session, new_id, or_new_id, utc_now, the_task, with_new_project, with_new_task,
  with_new_dependency, with_new_job,
}
use semi_automated_research.Db.Session.Guard.{flush, select}
use semi_automated_research.EventLog.{entry, append}
use Rows.{
  ProjectArgs, TaskArgs, JobArgs, new_project, new_task, new_job, project_clash, task_clash,
  job_clash, same_dependency, with_idempotency_key, with_submission_key,
}

-- `ProjectStateService.create_project`.
unfoldable pub create_project : ProjectArgs → Exec Session String
create_project a = do
  id ← new_id "prj"
  created_at ← utc_now
  write_unless (λ s. project_clash (new_project a id created_at) s.db) integrity_error
      (with_new_project (new_project a id created_at))
  flush
  append (record (entry id "PROJECT_CREATED" "PROJECT" id) {
    new_state = some (project_lifecycle_value a.lifecycle);
    dedupe_key = some (f_string ("project-created:" ∷ id ∷ []));
  })
  pure id

-- One dependency: it has to be a Task of the same Project.
abbrev pub is_foreign : Option Task → String → Bool
is_foreign none project_id = true
is_foreign (some t) project_id = not (t.project_id == project_id)

unfoldable pub add_dependency : String → String → String → Exec Session Unit
add_dependency project_id task_id dependency_id = do
  dependency ← gets (λ s. find dependency_id s.db.tasks)
  raise_if (is_foreign dependency project_id) value_error
  created_at ← utc_now
  let edge : TaskDependency = record {
    task_id = task_id;
    depends_on_task_id = dependency_id;
    created_at = created_at;
  }
  write_unless (λ s. any (same_dependency edge) s.db.task_dependencies) integrity_error
      (with_new_dependency edge)

-- `for dependency_id in dependency_ids`.
unfoldable pub add_dependencies : String → String → List String → Exec Session Unit
add_dependencies project_id task_id [] = pure tt
add_dependencies project_id task_id (d ∷ ds) =
    let rest = add_dependencies project_id task_id ds in
    add_dependency project_id task_id d >>= λ _. rest

-- The part of `create_task` past the test for an existing Task.
unfoldable pub insert_task : TaskArgs → Exec Session String
insert_task a = do
  id ← or_new_id a.task_id "tsk"
  created_at ← utc_now
  write_unless (λ s. task_clash (new_task a id created_at) s.db) integrity_error
      (with_new_task (new_task a id created_at))
  flush
  add_dependencies a.project_id id a.dependency_ids
  append (record (entry a.project_id "TASK_CREATED" "TASK" id) {
    new_state = some (task_status_value TaskStatus.pending);
    dedupe_key = some (f_string ("task-created:" ∷ id ∷ []));
    payload =
        some
          (field "action" (str a.action) (field "idempotency_key" (str a.idempotency_key) empty));
  })
  pure id

-- `existing`, or a new row.
abbrev pub or_insert :
    {A : Type 0} → Option A → (A → String) → Exec Session String → Exec Session String
or_insert none id insertion = insertion
or_insert (some row) id insertion = pure (id row)

-- `ProjectStateService.create_task`.
unfoldable pub create_task : TaskArgs → Exec Session String
create_task a = do
  existing ← select (with_idempotency_key a.project_id a.idempotency_key)
  or_insert existing (λ t. t.id) (insert_task a)

-- The part of `create_compute_job` past the test for an existing ComputeJob.
unfoldable pub insert_job : JobArgs → Task → Exec Session String
insert_job a task = do
  id ← new_id "job"
  created_at ← utc_now
  write_unless (λ s. job_clash (new_job a task id created_at) s.db) integrity_error
      (with_new_job (new_job a task id created_at))
  flush
  append (record (entry task.project_id "COMPUTE_JOB_CREATED" "COMPUTE_JOB" id) {
    correlation_id = some a.correlation_id;
    new_state = some (compute_execution_status_value ComputeExecutionStatus.created);
    dedupe_key = some (f_string ("compute-created:" ∷ a.provider_id ∷ ":" ∷ a.submission_key ∷ []));
  })
  pure id

-- `ProjectStateService.create_compute_job`.
unfoldable pub create_compute_job : JobArgs → Exec Session String
create_compute_job a = do
  existing ← select (with_submission_key a.provider_id a.submission_key)
  task ← the_task a.task_id
  or_insert existing (λ j. j.id) (insert_job a task)
