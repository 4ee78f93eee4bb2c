-- ===== src/Samples.antt =====
-- Sample rows and sessions, and the theorems applied to them.
pub mod Ids
pub mod Services
pub mod Routing
pub mod Linked
pub mod Submitting
pub mod Running
pub mod Accepting
pub mod Collecting
pub mod Versions
pub mod Claiming
pub mod Settling
use semi_automated_research.Base.{
  ℕ, zero, suc, String, ◌≡◌, refl, inl, inr, Option, none, some, Bool, true, false, List, [], ◌∷◌,
  f_string, arith, ◌==◌, string_eq, Bool-cases, if◌then◌else◌,
}
use semi_automated_research.Base.Json.{pos, empty}
use semi_automated_research.Domain.TaskStatus.{TaskStatus}
use semi_automated_research.Domain.Project.{
  ProjectLifecycle, ProjectPhase, ProjectStage, TaskKind, TaskExecutor,
}
use semi_automated_research.Db.Models.{Project, Task, ComputeJob}
use semi_automated_research.Db.Table.{find}
use semi_automated_research.Db.Session.{Db, Env, Session}
use semi_automated_research.EventLog.Sequence.{IsSequenced, counter}
use semi_automated_research.ProjectState.Rows.{
  ProjectArgs, TaskArgs, JobArgs, new_project, new_task, new_job,
}

-- A text of its own for each number.
abbrev pub tally : ℕ → String
tally zero = "0"
tally (suc n) = f_string ("1" ∷ tally n ∷ [])

abbrev pub sample_env : Env
sample_env = record { uuid4_hex = tally; utc_clock = λ n. n; scan = λ tasks. tasks }

abbrev pub project_args : ProjectArgs
project_args = record {
  slug = "demo";
  title = "Demo";
  workspace_uri = "file:///demo";
  brief = "A demonstration";
  lifecycle = ProjectLifecycle.active;
  phase = ProjectPhase.experiment;
  stage = ProjectStage.remote_run;
  priority = pos 0;
  budget = none;
  policy = none;
}

abbrev pub task_args : TaskArgs
task_args = record {
  task_id = some "tsk_1";
  project_id = "prj_1";
  stage = ProjectStage.remote_run;
  kind = TaskKind.compute;
  action = "run";
  executor = TaskExecutor.compute;
  idempotency_key = "run-1";
  spec = empty;
  output_spec = none;
  acceptance_policy = none;
  dependency_ids = [];
  priority = pos 0;
  required = true;
  max_attempts = 3;
  created_by = "CONTROLLER";
}

abbrev pub job_args : JobArgs
job_args = record {
  task_id = "tsk_1";
  provider_id = "local";
  resource_class = "local_cpu";
  submission_key = "key-1";
  remote_workdir = "/jobs/1";
  spec = empty;
  resource_snapshot = empty;
  correlation_id = "corr_1";
}

abbrev pub project_1 : Project
project_1 = new_project project_args "prj_1" 0

abbrev pub task_1 : Task
task_1 = new_task task_args "tsk_1" 0

abbrev pub job_1 : ComputeJob
job_1 = new_job job_args task_1 "job_1" 0

-- One PENDING Task with one CREATED ComputeJob.
abbrev sample_db : Db
sample_db = record {
  projects = project_1 ∷ [];
  task_dependencies = [];
  task_artifacts = [];
  tasks = task_1 ∷ [];
  events = [];
  compute_jobs = job_1 ∷ [];
  artifacts = [];
}

abbrev pub sample_session : Session
sample_session = record {
  env = sample_env;
  calls = 0;
  flushed = sample_db;
  db = sample_db;
  new_events = [];
}

pub sample_session-IsSequenced : IsSequenced sample_session
unfolding find counter
sample_session-IsSequenced = record {
  numbered =
      λ p. elim (Bool-cases ("prj_1" == p)) [ inl own ↦ rw own refl | inr other ↦ rw other refl ];
}
