-- ===== src/Transitions.antt =====
-- services/transitions.py: `TransitionService`, the only place where a status changes.
pub mod Tables
pub mod Paths
pub mod Run
pub mod RunJob
pub mod Written
use semi_automated_research.Base.{
  ℕ, ◌+◌, String, Option, none, some, Bool, true, false, not, List, [], ◌∷◌, ◌==◌, string_eq,
  contains, if◌then◌else◌,
}
use semi_automated_research.Base.Json.{Fields}
use semi_automated_research.Base.Exec.{
  Exec, pure, raise_if, or_raise, invalid_transition, key_error, ◌>>=◌, ◌>>◌,
}
use semi_automated_research.Domain.TaskStatus.{TaskStatus, task_status_eq, task_status_value}
use semi_automated_research.Domain.ComputeStatus.{
  ComputeExecutionStatus, compute_execution_status_eq, compute_execution_status_value,
}
use semi_automated_research.Domain.Observation.{
  ObservationStatus, observation_status_eq, observation_status_value,
}
use semi_automated_research.Db.Models.{Task, ComputeJob}
use semi_automated_research.Db.Session.{Session, the_task, the_job, set_task, set_job, or_utc_now}
use semi_automated_research.EventLog.{entry, append}
use Tables.{task_transitions, compute_transitions, task_event_type, compute_event_type}

-- The keyword arguments of `transition_task`.
pub record TaskOptions : Type 0 where
  pub expected_status : Option TaskStatus
  pub event_type : Option String
  pub correlation_id : Option String
  pub actor_id : Option String
  pub payload : Option Fields
  pub now : Option ℕ

abbrev pub task_defaults : TaskOptions
task_defaults = record {
  expected_status = none;
  event_type = none;
  correlation_id = none;
  actor_id = none;
  payload = none;
  now = none;
}

-- `expected_status is not None and old_status != expected_status`.
abbrev pub unexpected_task : Option TaskStatus → TaskStatus → Bool
unexpected_task none old = false
unexpected_task (some expected) old = not (old == expected)

abbrev pub unexpected_job : Option ComputeExecutionStatus → ComputeExecutionStatus → Bool
unexpected_job none old = false
unexpected_job (some expected) old = not (old == expected)

-- `kept or changed_at`.
abbrev pub first_time : Option ℕ → ℕ → Option ℕ
first_time none now = some now
first_time (some t) now = some t

-- `given or default`, where the empty text counts as missing.
abbrev pub text_or : Option String → Option String → Option String
text_or none default = default
text_or (some given) default = if given == "" then default else some given

abbrev ends_task : TaskStatus → Bool
ends_task to =
    contains to
      (TaskStatus.succeeded ∷ TaskStatus.failed ∷ TaskStatus.cancelled ∷ TaskStatus.skipped ∷ [])

abbrev start_task : TaskStatus → ℕ → Task → Task
start_task to now t =
    if to == TaskStatus.running
    then record t { started_at = first_time t.started_at now; attempt_count = t.attempt_count + 1 }
    else t

abbrev end_task : TaskStatus → ℕ → Task → Task
end_task to now t =
    if ends_task to
    then record t { finished_at = some now; lease_owner = none; lease_expires_at = none }
    else t

-- The writes to the Task, in their order.
unfoldable pub moved_task : TaskStatus → ℕ → Task → Task
moved_task to now t =
    end_task to now
      (start_task to now (record t { status = to; lock_version = t.lock_version + 1 }))

-- `TransitionService.transition_task`.
unfoldable pub transition_task : String → TaskStatus → TaskOptions → Exec Session Unit
unfolding the_task set_task
transition_task id to options = do
  task ← the_task id
  let old_status = task.status
  raise_if (unexpected_task options.expected_status old_status) invalid_transition
  raise_if (not (contains to (task_transitions old_status))) invalid_transition
  changed_at ← or_utc_now options.now
  set_task (moved_task to changed_at task)
  event_type ← or_raise (text_or options.event_type (task_event_type to)) key_error
  append (record (entry task.project_id event_type "TASK" task.id) {
    actor_id = options.actor_id;
    correlation_id = options.correlation_id;
    old_state = some (task_status_value old_status);
    new_state = some (task_status_value to);
    payload = options.payload;
  })
  pure tt

-- The keyword arguments of `transition_compute_job`.
pub record JobOptions : Type 0 where
  pub expected_status : Option ComputeExecutionStatus
  pub correlation_id : Option String
  pub payload : Option Fields
  pub now : Option ℕ

abbrev pub job_defaults : JobOptions
job_defaults = record { expected_status = none; correlation_id = none; payload = none; now = none }

abbrev ends_job : ComputeExecutionStatus → Bool
ends_job to = contains to (
    ComputeExecutionStatus.succeeded ∷ ComputeExecutionStatus.failed ∷ ComputeExecutionStatus.oom
    ∷ ComputeExecutionStatus.timeout ∷ ComputeExecutionStatus.cancelled ∷ [])

abbrev submit_job : ComputeExecutionStatus → ℕ → ComputeJob → ComputeJob
submit_job to now j =
    if to == ComputeExecutionStatus.submitted
    then record j { submitted_at = first_time j.submitted_at now }
    else j

abbrev start_job : ComputeExecutionStatus → ℕ → ComputeJob → ComputeJob
start_job to now j =
    if to == ComputeExecutionStatus.running
    then record j { started_at = first_time j.started_at now }
    else j

abbrev end_job : ComputeExecutionStatus → ℕ → ComputeJob → ComputeJob
end_job to now j = if ends_job to then record j { finished_at = some now } else j

-- The writes to the ComputeJob, in their order.
unfoldable pub moved_job : ComputeExecutionStatus → ℕ → ComputeJob → ComputeJob
moved_job to now j = end_job to now (
    start_job to now
      (submit_job to now (record j { execution_status = to; lock_version = j.lock_version + 1 })))

-- The part of `transition_compute_job` past `if to_status == old_status: return`.
unfoldable pub change_job : ComputeJob → ComputeExecutionStatus → JobOptions → Exec Session Unit
unfolding set_job
change_job job to options = do
  let old_status = job.execution_status
  raise_if (not (contains to (compute_transitions old_status))) invalid_transition
  changed_at ← or_utc_now options.now
  set_job (moved_job to changed_at job)
  event_type ← or_raise (compute_event_type to) key_error
  append (record (entry job.project_id event_type "COMPUTE_JOB" job.id) {
    correlation_id = options.correlation_id;
    old_state = some (compute_execution_status_value old_status);
    new_state = some (compute_execution_status_value to);
    payload = options.payload;
  })
  pure tt

-- `TransitionService.transition_compute_job`.
unfoldable pub transition_compute_job :
    String → ComputeExecutionStatus → JobOptions → Exec Session Unit
unfolding the_job change_job
transition_compute_job id to options = do
  job ← the_job id
  raise_if (unexpected_job options.expected_status job.execution_status) invalid_transition
  if to == job.execution_status then pure tt else change_job job to options

abbrev pub observation_event_type : ObservationStatus → String
observation_event_type ObservationStatus.fresh = "COMPUTE_OBSERVABILITY_RESTORED"
observation_event_type ObservationStatus.unreachable = "COMPUTE_OBSERVABILITY_LOST"
observation_event_type ObservationStatus.auth_required = "COMPUTE_OBSERVABILITY_LOST"
observation_event_type _ = "COMPUTE_OBSERVATION_CHANGED"

-- `TransitionService.update_observation_status`; the arguments are the correlation id and the payload.
unfoldable pub update_observation_status :
    String → ObservationStatus → Option String → Option Fields → Exec Session Unit
unfolding the_job set_job
update_observation_status id status correlation_id payload = do
  job ← the_job id
  if job.observation_status == status then pure tt else do
    set_job (record job { observation_status = status; lock_version = job.lock_version + 1 })
    append (record (entry job.project_id (observation_event_type status) "COMPUTE_JOB" job.id) {
      correlation_id = correlation_id;
      old_state = some (observation_status_value job.observation_status);
      new_state = some (observation_status_value status);
      payload = payload;
    })
    pure tt
