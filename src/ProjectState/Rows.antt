-- ===== src/ProjectState/Rows.antt =====
-- The keyword arguments of services/project_state.py, the rows that they make with the defaults of
-- db/models.py, and the constraints that an insertion meets.
use semi_automated_research.Base.{
  ℕ, ◌+◌, String, Option, none, some, Bool, true, false, not, ◌&&◌, ◌||◌, List, [], ◌∷◌, ◌==◌,
  string_eq, nat_eq, any, if◌then◌else◌,
}
use semi_automated_research.Base.Json.{ℤ, Fields, empty, or_empty}
use semi_automated_research.Domain.TaskStatus.{TaskStatus}
use semi_automated_research.Domain.ComputeStatus.{ComputeExecutionStatus}
use semi_automated_research.Domain.Observation.{ObservationStatus, FailureClass}
use semi_automated_research.Domain.Project.{
  ProjectLifecycle, ProjectPhase, ProjectStage, TaskKind, TaskExecutor,
}
use semi_automated_research.Db.Table.{find}
use semi_automated_research.Db.Models.{
  Project, Task, TaskDependency, ComputeJob, project_row, task_row, compute_job_row,
}
use semi_automated_research.Db.Session.{Db}

-- The keyword arguments of `create_project`.
pub record ProjectArgs : Type 0 where
  pub slug : String
  pub title : String
  pub workspace_uri : String
  pub brief : String
  pub lifecycle : ProjectLifecycle
  pub phase : ProjectPhase
  pub stage : ProjectStage
  pub priority : ℤ
  pub budget : Option Fields
  pub policy : Option Fields

abbrev pub new_project : ProjectArgs → String → ℕ → Project
new_project a id created_at = record {
  id = id;
  slug = a.slug;
  title = a.title;
  brief = a.brief;
  workspace_uri = a.workspace_uri;
  lifecycle = a.lifecycle;
  phase = a.phase;
  stage = a.stage;
  priority = a.priority;
  active_proposal_artifact_id = none;
  active_contract_artifact_id = none;
  active_paper_artifact_id = none;
  protocol_revision = 0;
  protocol_frozen = false;
  paper_review_round = 0;
  budget_json = or_empty a.budget;
  policy_json = or_empty a.policy;
  event_seq = 0;
  lock_version = 0;
  created_at = created_at;
}

-- The keyword arguments of `create_task`.
pub record TaskArgs : Type 0 where
  pub task_id : Option String
  pub project_id : String
  pub stage : ProjectStage
  pub kind : TaskKind
  pub action : String
  pub executor : TaskExecutor
  pub idempotency_key : String
  pub spec : Fields
  pub output_spec : Option Fields
  pub acceptance_policy : Option Fields
  pub dependency_ids : List String
  pub priority : ℤ
  pub required : Bool
  pub max_attempts : ℕ
  pub created_by : String

abbrev pub new_task : TaskArgs → String → ℕ → Task
new_task a id created_at = record {
  id = id;
  project_id = a.project_id;
  parent_task_id = none;
  contract_item_key = none;
  stage = a.stage;
  kind = a.kind;
  action = a.action;
  executor = a.executor;
  status = TaskStatus.pending;
  block_reason = none;
  required = a.required;
  priority = a.priority;
  spec_json = a.spec;
  output_spec_json = or_empty a.output_spec;
  acceptance_policy_json = or_empty a.acceptance_policy;
  retry_policy_json = empty;
  escalation_policy_json = empty;
  routing_policy_json = empty;
  attempt_count = 0;
  max_attempts = a.max_attempts;
  idempotency_key = a.idempotency_key;
  not_before = none;
  next_retry_at = none;
  deadline = none;
  lease_owner = none;
  lease_expires_at = none;
  result_summary_json = empty;
  error_summary = none;
  created_by = a.created_by;
  created_at = created_at;
  started_at = none;
  finished_at = none;
  lock_version = 0;
}

-- The keyword arguments of `create_compute_job`, the Task by its id.
pub record JobArgs : Type 0 where
  pub task_id : String
  pub provider_id : String
  pub resource_class : String
  pub submission_key : String
  pub remote_workdir : String
  pub spec : Fields
  pub resource_snapshot : Fields
  pub correlation_id : String

abbrev pub new_job : JobArgs → Task → String → ℕ → ComputeJob
new_job a task id created_at = record {
  id = id;
  project_id = task.project_id;
  task_id = task.id;
  provider_id = a.provider_id;
  resource_class = a.resource_class;
  submission_key = a.submission_key;
  attempt_no = task.attempt_count + 1;
  external_job_id = none;
  remote_workdir = a.remote_workdir;
  execution_status = ComputeExecutionStatus.created;
  observation_status = ObservationStatus.fresh;
  resource_snapshot_json = a.resource_snapshot;
  provider_metadata_json = empty;
  spec_json = a.spec;
  submitted_at = none;
  started_at = none;
  finished_at = none;
  last_confirmed_at = none;
  last_poll_at = none;
  next_poll_at = none;
  last_progress_at = none;
  exit_code = none;
  failure_class = FailureClass.none;
  log_paths_json = empty;
  log_cursor_json = empty;
  runtime_summary_json = empty;
  submission_script_artifact_id = none;
  stdout_artifact_id = none;
  stderr_artifact_id = none;
  created_at = created_at;
  lock_version = 0;
}

abbrev pub is_absent {ℓ} : {A : Type ℓ} → Option A → Bool
is_absent none = true
is_absent (some a) = false

-- Primary key and unique slug.
unfoldable pub project_clash : Project → Db → Bool
project_clash p db =
    not (is_absent (find p.id db.projects)) || any (λ q. q.slug == p.slug) db.projects

-- Primary key, foreign key, and `UniqueConstraint("project_id", "idempotency_key")`.
unfoldable pub task_clash : Task → Db → Bool
task_clash t db =
    not (is_absent (find t.id db.tasks))
    || (is_absent (find t.project_id db.projects)
        || any (λ u. u.project_id == t.project_id && u.idempotency_key == t.idempotency_key)
            db.tasks)

-- Primary key, foreign keys, `UniqueConstraint("provider_id", "submission_key")` and
-- `UniqueConstraint("task_id", "attempt_no")`.
unfoldable pub job_clash : ComputeJob → Db → Bool
job_clash j db =
    not (is_absent (find j.id db.compute_jobs))
    || (is_absent (find j.project_id db.projects)
        || (is_absent (find j.task_id db.tasks)
            || any
                (λ k.
                  (k.provider_id == j.provider_id && k.submission_key == j.submission_key)
                  || (k.task_id == j.task_id && k.attempt_no == j.attempt_no))
                db.compute_jobs))

abbrev pub same_dependency : TaskDependency → TaskDependency → Bool
same_dependency a b = a.task_id == b.task_id && a.depends_on_task_id == b.depends_on_task_id

abbrev pub first_where {ℓ} : {A : Type ℓ} → (A → Bool) → List A → Option A
first_where p [] = none
first_where p (x ∷ xs) = if p x then some x else first_where p xs

-- The queries for an existing row.
unfoldable pub with_idempotency_key : String → String → Db → Option Task
with_idempotency_key project_id key db =
    first_where (λ t. t.project_id == project_id && t.idempotency_key == key) db.tasks

unfoldable pub with_submission_key : String → String → Db → Option ComputeJob
with_submission_key provider_id key db =
    first_where (λ j. j.provider_id == provider_id && j.submission_key == key) db.compute_jobs
