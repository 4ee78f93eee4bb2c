-- ===== src/Invariant/Inserts.antt =====
-- Insertions of new rows keep `IsValid`.
use semi_automated_research.Base.{
  ◌≡◌, refl, inl, inr, true, none, [], ◌∷◌, arith, string_eq, all, all-append, all-weaken, &&-true,
  Option-cases,
}
use semi_automated_research.Domain.TaskStatus.{task_status_eq}
use semi_automated_research.Db.Table.{find, find-append}
use semi_automated_research.Db.Keys.{
  append-Distinct, find-append_some, find-append_none, find-append_kept,
}
use semi_automated_research.Db.Models.{
  Project, Task, TaskDependency, ComputeJob, project_row, task_row, compute_job_row,
}
use semi_automated_research.Db.Session.{
  Session, with_new_project, with_new_task, with_new_dependency, with_new_job,
}
use semi_automated_research.Db.Session.Guard.{
  enforce_audited_state_changes, prevent_artifact_identity_mutation, task_audited, job_audited,
  artifact_kept,
}
use semi_automated_research.EventLog.Sequence.{counter}
use semi_automated_research.Invariant.{IsValid, IsOwned, IsSoundTask, IsSoundJob}

-- A new Project, under an id that is free.
pub with_new_project-IsValid :
    (p : Project) (s : Session)
    → IsValid s
    → find p.id s.db.projects ≡ none
    → p.event_seq ≡ 0
    → IsValid (with_new_project p s)
unfolding enforce_audited_state_changes prevent_artifact_identity_mutation task_audited job_audited
    artifact_kept counter
with_new_project-IsValid p s h free start = record {
  sequenced = record {
    numbered = λ q. rw (find-append q s.db.projects p) (elim (Option-cases (find q s.db.projects)) [
      | inl absent ↦ rw absent (ground (arith, h.sequenced.numbered q, absent, start))
      | inr (r, present) ↦ rw present (ground (arith, h.sequenced.numbered q, present))
    ]);
  };
  audited = h.audited;
  kept = h.kept;
  task_keys = h.task_keys;
  job_keys = h.job_keys;
  artifact_keys = h.artifact_keys;
  task_flushed = h.task_flushed;
  job_flushed = h.job_flushed;
  artifact_flushed = h.artifact_flushed;
  task_owned = λ id t there.
      let (q, owner) = h.task_owned id t there in
      (q, find-append_kept t.project_id s.db.projects p q owner);
  job_owned = λ id j there.
      let (q, owner) = h.job_owned id j there in
      (q, find-append_kept j.project_id s.db.projects p q owner);
  task_sound = h.task_sound;
  job_sound = h.job_sound;
}

task_audited_new :
    (t : Task) (s : Session) → find t.id s.flushed.tasks ≡ none → task_audited s t ≡ true
unfolding task_audited
task_audited_new t s absent = rw (absent, task_audited) refl

job_audited_new :
    (j : ComputeJob) (s : Session)
    → find j.id s.flushed.compute_jobs ≡ none
    → job_audited s j ≡ true
unfolding job_audited
job_audited_new j s absent = rw (absent, job_audited) refl

audited_new_task :
    (t : Task) (s : Session)
    → find t.id s.flushed.tasks ≡ none
    → enforce_audited_state_changes s ≡ true
    → enforce_audited_state_changes (with_new_task t s) ≡ true
unfolding enforce_audited_state_changes
audited_new_task t s absent h =
    let s' = with_new_task t s in
    let (old, jobs) =
      &&-true (all (task_audited s) s.db.tasks) (all (job_audited s) s.db.compute_jobs) h in
    rw
      (
        all-append (task_audited s') s.db.tasks (t ∷ []),
        all-weaken (task_audited s) (task_audited s') s.db.tasks
            (λ r. unfold task_audited in λ k. k) old,
        all-weaken (job_audited s) (job_audited s') s.db.compute_jobs
            (λ r. unfold job_audited in λ k. k) jobs,
        task_audited_new t s' absent,
      )
      refl

audited_new_job :
    (j : ComputeJob) (s : Session)
    → find j.id s.flushed.compute_jobs ≡ none
    → enforce_audited_state_changes s ≡ true
    → enforce_audited_state_changes (with_new_job j s) ≡ true
unfolding enforce_audited_state_changes
audited_new_job j s absent h =
    let s' = with_new_job j s in
    let (tasks, old) =
      &&-true (all (task_audited s) s.db.tasks) (all (job_audited s) s.db.compute_jobs) h in
    rw
      (
        all-append (job_audited s') s.db.compute_jobs (j ∷ []),
        all-weaken (task_audited s) (task_audited s') s.db.tasks
            (λ r. unfold task_audited in λ k. k) tasks,
        all-weaken (job_audited s) (job_audited s') s.db.compute_jobs
            (λ r. unfold job_audited in λ k. k) old,
        job_audited_new j s' absent,
      )
      refl

-- A new Task, PENDING and under an id that is free, of a Project that is there.
pub with_new_task-IsValid :
    (t : Task) (s : Session)
    → IsValid s
    → find t.id s.db.tasks ≡ none
    → IsOwned t.project_id s
    → IsSoundTask t
    → IsValid (with_new_task t s)
unfolding enforce_audited_state_changes prevent_artifact_identity_mutation job_audited artifact_kept
with_new_task-IsValid t s h free owner sound = record {
  sequenced = record { numbered = h.sequenced.numbered };
  audited = audited_new_task t s (h.task_flushed t.id free) h.audited;
  kept = h.kept;
  task_keys = append-Distinct s.db.tasks t h.task_keys free;
  job_keys = h.job_keys;
  artifact_keys = h.artifact_keys;
  task_flushed = λ id gone. h.task_flushed id (find-append_none id s.db.tasks t gone);
  job_flushed = h.job_flushed;
  artifact_flushed = h.artifact_flushed;
  task_owned = λ id r there. elim (find-append_some id s.db.tasks t r there) [
    | inl old ↦ h.task_owned id r old
    | inr new ↦ rw new owner
  ];
  job_owned = h.job_owned;
  task_sound = λ id r there. elim (find-append_some id s.db.tasks t r there) [
    | inl old ↦ h.task_sound id r old
    | inr new ↦ rw new sound
  ];
  job_sound = h.job_sound;
}

-- A new ComputeJob likewise.
pub with_new_job-IsValid :
    (j : ComputeJob) (s : Session)
    → IsValid s
    → find j.id s.db.compute_jobs ≡ none
    → IsOwned j.project_id s
    → IsSoundJob j
    → IsValid (with_new_job j s)
unfolding prevent_artifact_identity_mutation artifact_kept
with_new_job-IsValid j s h free owner sound = record {
  sequenced = record { numbered = h.sequenced.numbered };
  audited = audited_new_job j s (h.job_flushed j.id free) h.audited;
  kept = h.kept;
  task_keys = h.task_keys;
  job_keys = append-Distinct s.db.compute_jobs j h.job_keys free;
  artifact_keys = h.artifact_keys;
  task_flushed = h.task_flushed;
  job_flushed = λ id gone. h.job_flushed id (find-append_none id s.db.compute_jobs j gone);
  artifact_flushed = h.artifact_flushed;
  task_owned = h.task_owned;
  job_owned = λ id r there. elim (find-append_some id s.db.compute_jobs j r there) [
    | inl old ↦ h.job_owned id r old
    | inr new ↦ rw new owner
  ];
  task_sound = h.task_sound;
  job_sound = λ id r there. elim (find-append_some id s.db.compute_jobs j r there) [
    | inl old ↦ h.job_sound id r old
    | inr new ↦ rw new sound
  ];
}

-- A new dependency changes nothing that the invariant speaks of.
pub with_new_dependency-IsValid :
    (d : TaskDependency) (s : Session) → IsValid s → IsValid (with_new_dependency d s)
unfolding enforce_audited_state_changes prevent_artifact_identity_mutation task_audited job_audited
    artifact_kept
with_new_dependency-IsValid d s h = record {
  sequenced = record { numbered = h.sequenced.numbered };
  audited = h.audited;
  kept = h.kept;
  task_keys = h.task_keys;
  job_keys = h.job_keys;
  artifact_keys = h.artifact_keys;
  task_flushed = h.task_flushed;
  job_flushed = h.job_flushed;
  artifact_flushed = h.artifact_flushed;
  task_owned = h.task_owned;
  job_owned = h.job_owned;
  task_sound = h.task_sound;
  job_sound = h.job_sound;
}
