-- ===== src/Invariant.antt =====
-- What holds of a session between two operations of the services: the Event log is numbered, every
-- changed status has its Event, and the rows of Tasks and ComputeJobs agree with their status.
pub mod Writes
pub mod Flush
pub mod Inserts
pub mod Edits
pub mod Sees
pub mod Frame
pub mod Moved
pub mod Transitions
pub mod Jobs
use semi_automated_research.Base.{
  ℕ, ◌<◌, String, ◌≡◌, Bool, true, false, Option, none, some, List, [], ◌∷◌, contains,
}
use semi_automated_research.Domain.TaskStatus.{TaskStatus, task_status_eq}
use semi_automated_research.Domain.ComputeStatus.{
  ComputeExecutionStatus, compute_execution_status_eq,
}
use semi_automated_research.Db.Table.{find}
use semi_automated_research.Db.Keys.{Distinct}
use semi_automated_research.Db.Models.{
  Project, Task, ComputeJob, project_row, task_row, compute_job_row, artifact_row,
}
use semi_automated_research.Db.Session.{Session}
use semi_automated_research.Db.Session.Guard.{
  enforce_audited_state_changes, prevent_artifact_identity_mutation,
}
use semi_automated_research.EventLog.Sequence.{IsSequenced}

abbrev pub is_some {ℓ} : {A : Type ℓ} → Option A → Bool
is_some none = false
is_some (some a) = true

abbrev pub has_run : TaskStatus → Bool
has_run TaskStatus.running = true
has_run TaskStatus.verifying = true
has_run TaskStatus.succeeded = true
has_run _ = false

abbrev pub has_ended : TaskStatus → Bool
has_ended TaskStatus.succeeded = true
has_ended TaskStatus.failed = true
has_ended TaskStatus.cancelled = true
has_ended TaskStatus.skipped = true
has_ended _ = false

-- A Task that runs or has run bears its start and an attempt; one that has ended bears its end and no
-- lease.
pub record IsSoundTask (t : Task) : Type 0 where
  pub started : has_run t.status ≡ true → is_some t.started_at ≡ true
  pub attempted : has_run t.status ≡ true → 0 < t.attempt_count
  pub finished : has_ended t.status ≡ true → is_some t.finished_at ≡ true
  pub unowned : has_ended t.status ≡ true → t.lease_owner ≡ none
  pub unleased : has_ended t.status ≡ true → t.lease_expires_at ≡ none

abbrev pub is_terminal : ComputeExecutionStatus → Bool
is_terminal ComputeExecutionStatus.succeeded = true
is_terminal ComputeExecutionStatus.failed = true
is_terminal ComputeExecutionStatus.oom = true
is_terminal ComputeExecutionStatus.timeout = true
is_terminal ComputeExecutionStatus.cancelled = true
is_terminal _ = false

-- A ComputeJob bears the instants that its status speaks of.
pub record IsSoundJob (j : ComputeJob) : Type 0 where
  pub submitted :
      j.execution_status ≡ ComputeExecutionStatus.submitted → is_some j.submitted_at ≡ true
  pub started : j.execution_status ≡ ComputeExecutionStatus.running → is_some j.started_at ≡ true
  pub finished : is_terminal j.execution_status ≡ true → is_some j.finished_at ≡ true

abbrev pub IsOwned : String → Session → Type 0
IsOwned project_id s = (p : Project) × (find project_id s.db.projects ≡ some p)

pub record IsValid (s : Session) : Type 0 where
  pub sequenced : IsSequenced s
  pub audited : enforce_audited_state_changes s ≡ true
  pub kept : prevent_artifact_identity_mutation s ≡ true
  pub task_keys : Distinct s.db.tasks
  pub job_keys : Distinct s.db.compute_jobs
  pub artifact_keys : Distinct s.db.artifacts
  pub task_flushed : (id : String) → find id s.db.tasks ≡ none → find id s.flushed.tasks ≡ none
  pub job_flushed :
      (id : String) → find id s.db.compute_jobs ≡ none → find id s.flushed.compute_jobs ≡ none
  pub artifact_flushed :
      (id : String) → find id s.db.artifacts ≡ none → find id s.flushed.artifacts ≡ none
  pub task_owned : (id : String) (t : Task) → find id s.db.tasks ≡ some t → IsOwned t.project_id s
  pub job_owned :
      (id : String) (j : ComputeJob) → find id s.db.compute_jobs ≡ some j → IsOwned j.project_id s
  pub task_sound : (id : String) (t : Task) → find id s.db.tasks ≡ some t → IsSoundTask t
  pub job_sound : (id : String) (j : ComputeJob) → find id s.db.compute_jobs ≡ some j → IsSoundJob j
