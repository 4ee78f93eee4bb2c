-- ===== src/Reconciler/Records.antt =====
-- services/reconciler.py: the transactions of `ComputeReconciler`.
use semi_automated_research.Base.{
  ℕ, ◌+◌, String, Option, none, some, Bool, true, false, List, [], ◌∷◌, ◌==◌, string_eq, contains,
  if◌then◌else◌,
}
use semi_automated_research.Base.Json.{Json, Fields, null, bool, str, empty, field, get, set}
use semi_automated_research.Base.Exec.{
  Error, invalid_transition, lookup_error, value_error, key_error, integrity_error, runtime_error,
  file_not_found, io_error, timeout_error, type_error, attribute_error, Exec, pure, or_raise, ◌>>=◌,
  ◌>>◌,
}
use semi_automated_research.Domain.ComputeStatus.{
  ComputeExecutionStatus, compute_execution_status_eq, compute_execution_status_value,
  compute_execution_status_of_value,
}
use semi_automated_research.Domain.Observation.{ObservationStatus, observation_status_eq}
use semi_automated_research.Domain.TaskStatus.{TaskStatus, task_status_eq}
use semi_automated_research.Db.Table.{find}
use semi_automated_research.Db.Models.{Task, ComputeJob, task_row, compute_job_row}
use semi_automated_research.Db.Session.{Session, new_id, the_job, edit_job}
use semi_automated_research.Db.Session.Guard.{select}
use semi_automated_research.Transitions.{
  task_defaults, job_defaults, transition_task, transition_compute_job, update_observation_status,
}
use semi_automated_research.Compute.Protocol.{JobObservation}

-- `POLLABLE`.
abbrev pub pollable : List ComputeExecutionStatus
pollable =
    ComputeExecutionStatus.submitted ∷ ComputeExecutionStatus.pending
    ∷ ComputeExecutionStatus.running ∷ []

-- The ComputeJob is there and has one of the statuses.
abbrev pub is_in : List ComputeExecutionStatus → Option ComputeJob → Bool
is_in statuses none = false
is_in statuses (some j) = contains j.execution_status statuses

abbrev pub submitted_as : String → ComputeJob → ComputeJob
submitted_as external_id j = record j { external_job_id = some external_id }

-- The transaction of `reconcile_created`; `none` where the ComputeJob is no longer CREATED.
unfoldable pub mark_submitted : String → String → Exec Session (Option String)
mark_submitted id external_id = do
  found ← select (λ db. find id db.compute_jobs)
  if is_in (ComputeExecutionStatus.created ∷ []) found
      then (do
        edit_job id (submitted_as external_id)
        correlation_id ← new_id "corr"
        transition_compute_job id ComputeExecutionStatus.submitted (record job_defaults {
          expected_status = some ComputeExecutionStatus.created;
          correlation_id = some correlation_id;
          payload = some (field "external_job_id" (str external_id) empty);
        })
        pure (some id))
      else pure none

-- `type(exc).__name__`.
abbrev pub error_type : Error → String
error_type invalid_transition = "InvalidTransition"
error_type lookup_error = "LookupError"
error_type value_error = "ValueError"
error_type key_error = "KeyError"
error_type integrity_error = "IntegrityError"
error_type runtime_error = "RuntimeError"
error_type file_not_found = "FileNotFoundError"
error_type io_error = "OSError"
error_type timeout_error = "TimeoutError"
error_type type_error = "TypeError"
error_type attribute_error = "AttributeError"

abbrev is_there {ℓ} : {A : Type ℓ} → Option A → Bool
is_there none = false
is_there (some a) = true

abbrev pub polled : ℕ → ℕ → ComputeJob → ComputeJob
polled interval now j = record j { last_poll_at = some now; next_poll_at = some (now + interval) }

-- The transaction after a poll that raised.
unfoldable pub poll_failed : ℕ → ℕ → Error → String → Exec Session (Unit {0})
poll_failed interval now e id = do
  found ← select (λ db. find id db.compute_jobs)
  if is_there found
      then (do
        update_observation_status id ObservationStatus.poll_error none
            (some (field "error_type" (str (error_type e)) empty))
        edit_job id (polled interval now))
      else pure tt

abbrev is_fresh : JobObservation → Bool
is_fresh o = o.observation_status == ObservationStatus.fresh

abbrev pub with_progress : Fields → ℕ → ComputeJob → ComputeJob
with_progress empty now j = j
with_progress (field k v d) now j = record j {
  runtime_summary_json = field k v d;
  last_progress_at = some now;
}

-- The columns that every observation writes.
abbrev pub observed : ℕ → JobObservation → ComputeJob → ComputeJob
observed interval o j = with_progress o.progress o.observed_at (record j {
  last_poll_at = some o.observed_at;
  last_confirmed_at = if is_fresh o then some o.observed_at else j.last_confirmed_at;
  next_poll_at = some (o.observed_at + interval);
  log_cursor_json = o.log_cursor;
})

abbrev pub terminal : List ComputeExecutionStatus
terminal =
    ComputeExecutionStatus.succeeded ∷ ComputeExecutionStatus.failed ∷ ComputeExecutionStatus.oom
    ∷ ComputeExecutionStatus.timeout ∷ ComputeExecutionStatus.cancelled ∷ []

abbrev str_or_null : Option String → Json
str_or_null none = null
str_or_null (some s) = str s

-- What an observation of the end writes.
abbrev pub ended : JobObservation → ComputeJob → ComputeJob
ended o j = record j {
  exit_code = o.exit_code;
  failure_class = o.failure_class;
  provider_metadata_json = set "raw_scheduler_state" (str_or_null o.raw_scheduler_state) (
      set "observed_terminal_status" (str (compute_execution_status_value o.execution_status))
        j.provider_metadata_json);
}

module _ (o : JobObservation) (correlation_id : String) where
  abbrev id : String
  id = o.compute_job_id

  -- A FRESH observation that the run goes on.
  unfoldable pub observe_running : ComputeJob → Exec Session (Unit {0})
  observe_running job =
      if job.execution_status == ComputeExecutionStatus.running
      then pure tt
      else transition_compute_job id ComputeExecutionStatus.running
          (record job_defaults { correlation_id = some correlation_id })

  -- A FRESH observation that the run has ended.
  unfoldable pub observe_end : ComputeJob → Exec Session (Unit {0})
  observe_end job = do
    if contains job.execution_status
          (ComputeExecutionStatus.submitted ∷ ComputeExecutionStatus.pending ∷ [])
        then transition_compute_job id ComputeExecutionStatus.running (record job_defaults {
          correlation_id = some correlation_id;
          payload = some (field "reconciled_fast_completion" (bool true) empty);
        })
        else pure tt
    edit_job id (ended o)
    transition_compute_job id ComputeExecutionStatus.collecting
        (record job_defaults { correlation_id = some correlation_id })

  -- What a FRESH observation changes.
  unfoldable pub observe_fresh : Exec Session (Unit {0})
  observe_fresh = do
    job ← the_job id
    if o.execution_status == ComputeExecutionStatus.running
        then observe_running job
        else (if contains o.execution_status terminal then observe_end job else pure tt)

-- `_record_observation`, in its transaction.
unfoldable pub record_observation : ℕ → JobObservation → Exec Session (Unit {0})
record_observation interval o = do
  found ← select (λ db. find o.compute_job_id db.compute_jobs)
  if is_in pollable found
      then (do
        correlation_id ← new_id "corr"
        update_observation_status o.compute_job_id o.observation_status (some correlation_id) none
        edit_job o.compute_job_id (observed interval o)
        if is_fresh o then observe_fresh o correlation_id else pure tt)
      else pure tt

-- `ComputeExecutionStatus(metadata.get("observed_terminal_status", "FAILED"))`.
abbrev pub terminal_of : Option Json → Option ComputeExecutionStatus
terminal_of none = some ComputeExecutionStatus.failed
terminal_of (some (str s)) = compute_execution_status_of_value s
terminal_of (some _) = none

abbrev is_running : Option Task → Bool
is_running none = false
is_running (some t) = t.status == TaskStatus.running

-- The last transaction of `_reconcile_collecting`; `none` where the ComputeJob is not COLLECTING.
unfoldable pub close_job : String → String → Exec Session (Option String)
close_job id correlation_id = do
  found ← select (λ db. find id db.compute_jobs)
  if is_in (ComputeExecutionStatus.collecting ∷ []) found
      then (do
        job ← the_job id
        status ←
            or_raise (terminal_of (get "observed_terminal_status" job.provider_metadata_json))
              value_error
        transition_compute_job id status (record job_defaults {
          expected_status = some ComputeExecutionStatus.collecting;
          correlation_id = some correlation_id;
        })
        task ← select (λ db. find job.task_id db.tasks)
        if is_running task
            then transition_task job.task_id TaskStatus.verifying (record task_defaults {
              expected_status = some TaskStatus.running;
              correlation_id = some correlation_id;
            })
            else pure tt
        pure (some id))
      else pure none
