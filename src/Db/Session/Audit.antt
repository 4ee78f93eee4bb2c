-- ===== src/Db/Session/Audit.antt =====
-- Writes that the listeners let pass.
use semi_automated_research.Base.{
  ◌≡◌, true, some, [], ◌∷◌, ◌++◌, arith, string_eq, any-append, all-weaken,
}
use semi_automated_research.Domain.TaskStatus.{task_status_eq, task_status_value}
use semi_automated_research.Domain.ComputeStatus.{
  compute_execution_status_eq, compute_execution_status_value,
}
use semi_automated_research.Db.Table.{find, id-find, store, all-store, all-find}
use semi_automated_research.Db.Models.{Task, Event, ComputeJob, task_row, compute_job_row}
use semi_automated_research.Db.Session.Ops.{Session, with_task, with_job}
use semi_automated_research.Db.Session.Guard.{
  records, task_audited, job_audited, enforce_audited_state_changes,
}

module _ (s s' : Session) (e : Event) (same : s'.flushed ≡ s.flushed)
    (more : s'.new_events ≡ s.new_events ++ e ∷ []) where
  task_audited-more : (t : Task) → task_audited s t ≡ true → task_audited s' t ≡ true
  unfolding task_audited
  task_audited-more t h =
      rw (same, more)
        (ground (
          arith,
          any-append (records "TASK" t.id (task_status_value t.status)) s.new_events (e ∷ []),
        ))

  task_audited-recorded :
      (t : Task)
      → records "TASK" t.id (task_status_value t.status) e ≡ true
      → task_audited s' t ≡ true
  unfolding task_audited
  task_audited-recorded t h =
      rw (same, more)
        (ground (
          arith,
          any-append (records "TASK" t.id (task_status_value t.status)) s.new_events (e ∷ []),
        ))

  job_audited-more : (t : ComputeJob) → job_audited s t ≡ true → job_audited s' t ≡ true
  unfolding job_audited
  job_audited-more t h =
      rw (same, more)
        (ground (
          arith,
          any-append
              (records "COMPUTE_JOB" t.id (compute_execution_status_value t.execution_status))
              s.new_events (e ∷ []),
        ))

  job_audited-recorded :
      (t : ComputeJob)
      → records "COMPUTE_JOB" t.id (compute_execution_status_value t.execution_status) e ≡ true
      → job_audited s' t ≡ true
  unfolding job_audited
  job_audited-recorded t h =
      rw (same, more)
        (ground (
          arith,
          any-append
              (records "COMPUTE_JOB" t.id (compute_execution_status_value t.execution_status))
              s.new_events (e ∷ []),
        ))

  -- A Task written together with an Event that records its status.
  pub audited-task :
      (t : Task)
      → s'.db.tasks ≡ store t s.db.tasks
      → s'.db.compute_jobs ≡ s.db.compute_jobs
      → records "TASK" t.id (task_status_value t.status) e ≡ true
      → enforce_audited_state_changes s ≡ true
      → enforce_audited_state_changes s' ≡ true
  unfolding enforce_audited_state_changes
  audited-task t tasks jobs recorded h =
      rw (tasks, jobs)
        (ground (
          arith,
          all-store (task_audited s) (task_audited s') t s.db.tasks task_audited-more
              (task_audited-recorded t recorded),
          all-weaken (job_audited s) (job_audited s') s.db.compute_jobs job_audited-more,
        ))

  -- A ComputeJob likewise.
  pub audited-job :
      (j : ComputeJob)
      → s'.db.tasks ≡ s.db.tasks
      → s'.db.compute_jobs ≡ store j s.db.compute_jobs
      → records "COMPUTE_JOB" j.id (compute_execution_status_value j.execution_status) e ≡ true
      → enforce_audited_state_changes s ≡ true
      → enforce_audited_state_changes s' ≡ true
  unfolding enforce_audited_state_changes
  audited-job j tasks jobs recorded h =
      rw (tasks, jobs)
        (ground (
          arith,
          all-store (job_audited s) (job_audited s') j s.db.compute_jobs job_audited-more
              (job_audited-recorded j recorded),
          all-weaken (task_audited s) (task_audited s') s.db.tasks task_audited-more,
        ))

  -- An Event alone.
  pub audited-event :
      s'.db.tasks ≡ s.db.tasks
      → s'.db.compute_jobs ≡ s.db.compute_jobs
      → enforce_audited_state_changes s ≡ true
      → enforce_audited_state_changes s' ≡ true
  unfolding enforce_audited_state_changes
  audited-event tasks jobs h =
      rw (tasks, jobs)
        (ground (
          arith,
          all-weaken (task_audited s) (task_audited s') s.db.tasks task_audited-more,
          all-weaken (job_audited s) (job_audited s') s.db.compute_jobs job_audited-more,
        ))

module _ (s : Session) where
  -- A Task written with the status that it had.
  pub audited-same_task :
      (old t : Task)
      → find t.id s.db.tasks ≡ some old
      → t.status ≡ old.status
      → enforce_audited_state_changes s ≡ true
      → enforce_audited_state_changes (with_task t s) ≡ true
  unfolding enforce_audited_state_changes task_audited job_audited
  audited-same_task old t found same h = ground (
    arith,
    id-find t.id s.db.tasks old found,
    all-find (task_audited s) t.id s.db.tasks old,
    all-store (task_audited s) (task_audited s) t s.db.tasks (λ r k. k),
  )

  -- A ComputeJob written with the status that it had.
  pub audited-same_job :
      (old j : ComputeJob)
      → find j.id s.db.compute_jobs ≡ some old
      → j.execution_status ≡ old.execution_status
      → enforce_audited_state_changes s ≡ true
      → enforce_audited_state_changes (with_job j s) ≡ true
  unfolding enforce_audited_state_changes task_audited job_audited
  audited-same_job old j found same h = ground (
    arith,
    id-find j.id s.db.compute_jobs old found,
    all-find (job_audited s) j.id s.db.compute_jobs old,
    all-store (job_audited s) (job_audited s) j s.db.compute_jobs (λ r k. k),
  )
