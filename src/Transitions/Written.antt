-- ===== src/Transitions/Written.antt =====
-- What a change of a status that `TransitionService` has made is, column by column.
use semi_automated_research.Base.{
  ℕ, ◌+◌, ◌≤◌, String, ◌≡◌, refl, Option, none, some, Bool, true, false, List, [], ◌∷◌, ◌++◌, arith,
  ◌==◌, string_eq, contains, if◌then◌else◌, ◌∙◌, text_eq,
}
use semi_automated_research.Base.Exec.{ok}
use semi_automated_research.Domain.TaskStatus.{
  TaskStatus, task_status_eq, task_status_value, running, succeeded, failed, cancelled, skipped,
}
use semi_automated_research.Domain.ComputeStatus.{
  ComputeExecutionStatus, compute_execution_status_eq, compute_execution_status_value,
}
use semi_automated_research.Db.Table.{Row, find, store, find-store, id-find}
use semi_automated_research.Db.Models.{
  Project, Task, ComputeJob, Event, project_row, task_row, compute_job_row,
}
use semi_automated_research.Db.Session.{Session, given_or_now}
use semi_automated_research.EventLog.Sequence.{IsSequenced, logged, event_in}
use semi_automated_research.EventLog.Fresh.{IsFresh, event_in-fresh}
use semi_automated_research.Transitions.Tables.{
  task_transitions, task_event_type, compute_transitions,
}
use semi_automated_research.Transitions.Paths.{task_event_type_total, compute_event_type_total}
use semi_automated_research.Transitions.{
  TaskOptions, unexpected_task, moved_task, transition_task, JobOptions, unexpected_job, moved_job,
  transition_compute_job,
}
use semi_automated_research.Transitions.Run.{
  task_entry, task_written, text_or_total, transition_task-run,
}
use semi_automated_research.Transitions.RunJob.{job_entry, job_written, transition_job-run}

-- A time that is set stays, and one that is not becomes `now`.
abbrev pub set_once : Option ℕ → ℕ → Option ℕ
set_once none now = some now
set_once (some old) now = some old

abbrev pub is_over : TaskStatus → Bool
is_over succeeded = true
is_over failed = true
is_over cancelled = true
is_over skipped = true
is_over _ = false

-- The columns of a Task that changes from `old` to the status `to`.
pub record IsTaskChange (to : TaskStatus) (now : ℕ) (old new : Task) : Type 0 where
  pub status : new.status ≡ to
  pub lock_version : new.lock_version ≡ old.lock_version + 1
  pub attempt_count :
      new.attempt_count ≡ (if to == running then old.attempt_count + 1 else old.attempt_count)
  pub started_at :
      new.started_at ≡ (if to == running then set_once old.started_at now else old.started_at)
  pub finished_at : new.finished_at ≡ (if is_over to then some now else old.finished_at)
  pub lease_owner : new.lease_owner ≡ (if is_over to then none else old.lease_owner)
  pub lease_expires_at : new.lease_expires_at ≡ (if is_over to then none else old.lease_expires_at)
  pub others :
      record new {
        status = old.status;
        lock_version = old.lock_version;
        attempt_count = old.attempt_count;
        started_at = old.started_at;
        finished_at = old.finished_at;
        lease_owner = old.lease_owner;
        lease_expires_at = old.lease_expires_at;
      }
      ≡ old

moved_task-IsTaskChange :
    (to : TaskStatus) (now : ℕ) (t : Task) → IsTaskChange to now t (moved_task to now t)
unfolding moved_task
moved_task-IsTaskChange to now t = record {
  status = ground arith;
  lock_version = ground arith;
  attempt_count = ground arith;
  started_at = ground arith;
  finished_at = ground arith;
  lease_owner = ground arith;
  lease_expires_at = ground arith;
  others = ground arith;
}

abbrev pub is_finished : ComputeExecutionStatus → Bool
is_finished ComputeExecutionStatus.succeeded = true
is_finished ComputeExecutionStatus.failed = true
is_finished ComputeExecutionStatus.oom = true
is_finished ComputeExecutionStatus.timeout = true
is_finished ComputeExecutionStatus.cancelled = true
is_finished _ = false

-- The columns of a ComputeJob that changes from `old` to the status `to`.
pub record IsJobChange (to : ComputeExecutionStatus) (now : ℕ) (old new : ComputeJob) : Type 0 where
  pub execution_status : new.execution_status ≡ to
  pub lock_version : new.lock_version ≡ old.lock_version + 1
  pub submitted_at : new.submitted_at ≡ (
      if to == ComputeExecutionStatus.submitted
      then set_once old.submitted_at now
      else old.submitted_at)
  pub started_at : new.started_at ≡ (
      if to == ComputeExecutionStatus.running then set_once old.started_at now else old.started_at)
  pub finished_at : new.finished_at ≡ (if is_finished to then some now else old.finished_at)
  pub others :
      record new {
        execution_status = old.execution_status;
        lock_version = old.lock_version;
        submitted_at = old.submitted_at;
        started_at = old.started_at;
        finished_at = old.finished_at;
      }
      ≡ old

moved_job-IsJobChange :
    (to : ComputeExecutionStatus) (now : ℕ) (j : ComputeJob)
    → IsJobChange to now j (moved_job to now j)
unfolding moved_job
moved_job-IsJobChange to now j = record {
  execution_status = ground arith;
  lock_version = ground arith;
  submitted_at = ground arith;
  started_at = ground arith;
  finished_at = ground arith;
  others = ground arith;
}

-- The columns of the Event that tells of a change.
pub record IsChangeEvent (project_id entity_type entity_id old_state new_state : String) (seq : ℕ)
    (e : Event) : Type 0 where
  pub project : e.project_id ≡ project_id
  pub entity : (e.entity_type ≡ entity_type) × (e.entity_id ≡ entity_id)
  pub states : (e.old_state ≡ some old_state) × (e.new_state ≡ some new_state)
  pub number : e.seq ≡ seq

moved_task-id : (to : TaskStatus) (now : ℕ) (t : Task) → (moved_task to now t).id ≡ t.id
unfolding moved_task
moved_task-id to now t = ground arith

moved_job-id :
    (to : ComputeExecutionStatus) (now : ℕ) (j : ComputeJob) → (moved_job to now j).id ≡ j.id
unfolding moved_job
moved_job-id to now j = ground arith

-- A row is found as it was written.
find_written :
    {A : Type 0} ⦃row : Row A⦄ (id : String) (new old : A) (rows : List A)
    → find id rows ≡ some old
    → row.id new ≡ row.id old
    → find id (store new rows) ≡ some new
find_written ⦃row⦄ id new old rows found same =
    let own : row.id new ≡ id = same ∙ id-find id rows old found in
    let there : find (row.id new) rows ≡ some old = rw own found in
    find-store id new old rows there ∙ rw ((text_eq (row.id new) id).1 own) refl

given_or_now-grows : (now : Option ℕ) (s : Session) → s.calls ≤ (given_or_now now s).1
given_or_now-grows none s = omega arith
given_or_now-grows (some t) s = omega arith

module _ (id : String) (s : Session) (p : Project) (sequenced : IsSequenced s)
    (fresh : IsFresh s) where
  -- In a sequenced log where the ids that are still to be drawn are new, `transition_task` of a Task
  -- whose Project exists, to a status that its own lists, when no other status was expected, returns. The
  -- Task then has the status and the next `lock_version`. RUNNING counts an attempt and sets
  -- `started_at` once. SUCCEEDED, FAILED, CANCELLED and SKIPPED set `finished_at` and clear the lease.
  -- The other columns are as they were. One Event is added, which names the Task and both statuses and
  -- bears the Project's next number.
  pub transition_task_legal :
      (to : TaskStatus) (options : TaskOptions) (t : Task)
      → find id s.db.tasks ≡ some t
      → find t.project_id s.db.projects ≡ some p
      → unexpected_task options.expected_status t.status ≡ false
      → contains to (task_transitions t.status) ≡ true
      → (s' : Session) × (transition_task id to options s ≡ (ok tt, s'))
        × ((new : Task) × (find id s'.db.tasks ≡ some new)
            × IsTaskChange to (given_or_now options.now s).0 t new)
        × ((e : Event) × (s'.db.events ≡ s.db.events ++ e ∷ [])
            × IsChangeEvent t.project_id "TASK" t.id
                (task_status_value t.status)
                (task_status_value to)
                (p.event_seq + 1)
                e)
  unfolding logged event_in
  transition_task_legal to options t found owner expected legal =
      let (d, known) = task_event_type_total t.status to legal in
      let (e, named) = text_or_total options.event_type (task_event_type to) known in
      let now = (given_or_now options.now s).0 in
      let begun : IsFresh (task_written t to options s) =
        λ m above. fresh m (omega (arith, above, given_or_now-grows options.now s)) in
      let new = event_in-fresh (task_entry t to e options) p (task_written t to options s) begun in
      (
        logged (task_entry t to e options) p (task_written t to options s),
        transition_task-run id to options s t p e sequenced found owner expected legal named new,
        (
          moved_task to now t,
          find_written id (moved_task to now t) t s.db.tasks found (moved_task-id to now t),
          moved_task-IsTaskChange to now t,
        ),
        (
          event_in (task_entry t to e options) p (task_written t to options s),
          refl,
          record { project = refl; entity = (refl, refl); states = (refl, refl); number = refl },
        ),
      )

  -- In a sequenced log where the ids that are still to be drawn are new, `transition_compute_job` of a
  -- ComputeJob whose Project exists, to another status that its own lists, when no other status was
  -- expected, returns. The ComputeJob then has the status and the next `lock_version`. SUBMITTED sets
  -- `submitted_at` once and RUNNING `started_at`. SUCCEEDED, FAILED, OOM, TIMEOUT and CANCELLED set
  -- `finished_at`. The other columns are as they were. One Event is added, which names the ComputeJob
  -- and both statuses and bears the Project's next number.
  pub transition_job_legal :
      (to : ComputeExecutionStatus) (options : JobOptions) (j : ComputeJob)
      → find id s.db.compute_jobs ≡ some j
      → find j.project_id s.db.projects ≡ some p
      → unexpected_job options.expected_status j.execution_status ≡ false
      → (to == j.execution_status) ≡ false
      → contains to (compute_transitions j.execution_status) ≡ true
      → (s' : Session) × (transition_compute_job id to options s ≡ (ok tt, s'))
        × ((new : ComputeJob) × (find id s'.db.compute_jobs ≡ some new)
            × IsJobChange to (given_or_now options.now s).0 j new)
        × ((e : Event) × (s'.db.events ≡ s.db.events ++ e ∷ [])
            × IsChangeEvent j.project_id "COMPUTE_JOB" j.id
                (compute_execution_status_value j.execution_status)
                (compute_execution_status_value to)
                (p.event_seq + 1)
                e)
  unfolding logged event_in
  transition_job_legal to options j found owner expected other legal =
      let (e, known) = compute_event_type_total j.execution_status to legal in
      let now = (given_or_now options.now s).0 in
      let begun : IsFresh (job_written j to options s) =
        λ m above. fresh m (omega (arith, above, given_or_now-grows options.now s)) in
      let new = event_in-fresh (job_entry j to e options) p (job_written j to options s) begun in
      (
        logged (job_entry j to e options) p (job_written j to options s),
        transition_job-run id to options s j p e sequenced found owner expected other legal known
            new,
        (
          moved_job to now j,
          find_written id (moved_job to now j) j s.db.compute_jobs found (moved_job-id to now j),
          moved_job-IsJobChange to now j,
        ),
        (
          event_in (job_entry j to e options) p (job_written j to options s),
          refl,
          record { project = refl; entity = (refl, refl); states = (refl, refl); number = refl },
        ),
      )
