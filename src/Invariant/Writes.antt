-- ===== src/Invariant/Writes.antt =====
-- The writes of the services keep `IsValid`.
use mathlib.Core.Path.{subst}
use mathlib.Core.Option.{some-injective}
use semi_automated_research.Base.{
  ℕ, String, ◌≡◌, refl, sym, ap, ◌∙◌, ◌⊎◌, inl, inr, true, some, ◌==◌, string_eq, Bool-cases,
}
use semi_automated_research.Base.Exec.Keeps.{Keeps, After-of}
use semi_automated_research.Domain.TaskStatus.{task_status_value}
use semi_automated_research.Domain.ComputeStatus.{compute_execution_status_value}
use semi_automated_research.Db.Table.{find, find-store, find_self}
use semi_automated_research.Db.Keys.{store-Distinct, find-store_none}
use semi_automated_research.Db.Models.{
  Project, Task, ComputeJob, project_row, task_row, compute_job_row,
}
use semi_automated_research.Db.Session.{Session, with_task, with_job}
use semi_automated_research.Db.Session.Guard.{
  records, prevent_artifact_identity_mutation, artifact_kept, enforce_audited_state_changes,
  task_audited, job_audited,
}
use semi_automated_research.Db.Session.Audit.{
  audited-task, audited-job, audited-event, audited-same_task, audited-same_job,
}
use semi_automated_research.EventLog.{Entry, next_seq, append}
use semi_automated_research.EventLog.Sequence.{event_in, logged, logged-IsSequenced, append_inv}
use semi_automated_research.Invariant.{IsValid, IsOwned, IsSoundTask, IsSoundJob}

-- A Project that was there is there after the Event's number has been drawn.
logged-IsOwned :
    (a : Entry) (p : Project) (s : Session) (q : String)
    → find a.project_id s.db.projects ≡ some p
    → IsOwned q s
    → IsOwned q (logged a p s)
unfolding logged
logged-IsOwned a p s q found (r, there) = elim (Bool-cases (p.id == q)) [
  | inl same ↦ (
    next_seq p,
    rw (find-store q (next_seq p) p s.db.projects (find_self a.project_id s.db.projects p found))
        (rw same refl),
  )
  | inr other ↦ (
    r,
    rw (find-store q (next_seq p) p s.db.projects (find_self a.project_id s.db.projects p found))
        (rw other there),
  )
]

-- Writing an Event alone keeps the session valid.
pub logged-IsValid :
    (a : Entry) (p : Project) (s : Session)
    → IsValid s
    → find a.project_id s.db.projects ≡ some p
    → IsValid (logged a p s)
unfolding logged prevent_artifact_identity_mutation artifact_kept
logged-IsValid a p s h found = record {
  sequenced = logged-IsSequenced a p s found h.sequenced;
  audited = audited-event s (logged a p s) (event_in a p s) refl refl refl refl h.audited;
  kept = h.kept;
  task_keys = h.task_keys;
  job_keys = h.job_keys;
  artifact_keys = h.artifact_keys;
  task_flushed = h.task_flushed;
  job_flushed = h.job_flushed;
  artifact_flushed = h.artifact_flushed;
  task_owned = λ id t there. logged-IsOwned a p s t.project_id found (h.task_owned id t there);
  job_owned = λ id j there. logged-IsOwned a p s j.project_id found (h.job_owned id j there);
  task_sound = h.task_sound;
  job_sound = h.job_sound;
}

module _ (s : Session) (t old : Task) (n : ℕ) (h : IsValid s)
    (there : find t.id s.db.tasks ≡ some old) (home : t.project_id ≡ old.project_id)
    (sound : IsSoundTask t) where
  abbrev task_session : Session
  task_session = with_task t (record s { calls = n })

  task_after :
      (id : String) (r : Task)
      → find id task_session.db.tasks ≡ some r
      → (r ≡ t) ⊎ (find id s.db.tasks ≡ some r)
  task_after id r now =
      let shown = rw (find-store id t old s.db.tasks there) at now in
      elim (Bool-cases (t.id == id)) [
        | inl same ↦ inl (sym (some-injective t r (rw same at shown)))
        | inr other ↦ inr (rw other at shown)
      ]

  task_after-IsOwned :
      (id : String) (r : Task) → find id task_session.db.tasks ≡ some r → IsOwned r.project_id s
  task_after-IsOwned id r now = elim (task_after id r now) [
    | inl new ↦
        let (p, owner) = h.task_owned t.id old there in
        (p, ap (λ q. find q s.db.projects) (ap (λ x. x.project_id) new ∙ home) ∙ owner)
    | inr before ↦ h.task_owned id r before
  ]

  task_after-IsSoundTask :
      (id : String) (r : Task) → find id task_session.db.tasks ≡ some r → IsSoundTask r
  task_after-IsSoundTask id r now = elim (task_after id r now) [
    | inl new ↦ subst IsSoundTask (sym new) sound
    | inr before ↦ h.task_sound id r before
  ]

  -- A Task written together with an Event that records its status keeps the session valid.
  pub task_logged-IsValid :
      (a : Entry) (p : Project)
      → find a.project_id s.db.projects ≡ some p
      → records "TASK" t.id (task_status_value t.status) (event_in a p task_session) ≡ true
      → IsValid (logged a p task_session)
  unfolding logged prevent_artifact_identity_mutation artifact_kept
  task_logged-IsValid a p owner recorded = record {
    sequenced =
        logged-IsSequenced a p task_session owner (record { numbered = h.sequenced.numbered });
    audited =
        audited-task s (logged a p task_session) (event_in a p task_session) refl refl t refl refl
          recorded h.audited;
    kept = h.kept;
    task_keys = store-Distinct t s.db.tasks h.task_keys;
    job_keys = h.job_keys;
    artifact_keys = h.artifact_keys;
    task_flushed = λ id gone. h.task_flushed id (find-store_none id t s.db.tasks gone);
    job_flushed = h.job_flushed;
    artifact_flushed = h.artifact_flushed;
    task_owned = λ id r now.
        logged-IsOwned a p task_session r.project_id owner (task_after-IsOwned id r now);
    job_owned =
        λ id r now. logged-IsOwned a p task_session r.project_id owner (h.job_owned id r now);
    task_sound = task_after-IsSoundTask;
    job_sound = h.job_sound;
  }

  -- A Task written with the status that it had keeps the session valid.
  pub task_kept-IsValid : t.status ≡ old.status → IsValid task_session
  unfolding prevent_artifact_identity_mutation artifact_kept enforce_audited_state_changes
      task_audited job_audited
  task_kept-IsValid same = record {
    sequenced = record { numbered = h.sequenced.numbered };
    audited = audited-same_task (record s { calls = n }) old t there same h.audited;
    kept = h.kept;
    task_keys = store-Distinct t s.db.tasks h.task_keys;
    job_keys = h.job_keys;
    artifact_keys = h.artifact_keys;
    task_flushed = λ id gone. h.task_flushed id (find-store_none id t s.db.tasks gone);
    job_flushed = h.job_flushed;
    artifact_flushed = h.artifact_flushed;
    task_owned = λ id r now. task_after-IsOwned id r now;
    job_owned = λ id r now. h.job_owned id r now;
    task_sound = task_after-IsSoundTask;
    job_sound = h.job_sound;
  }

module _ (s : Session) (j old : ComputeJob) (n : ℕ) (h : IsValid s)
    (there : find j.id s.db.compute_jobs ≡ some old) (home : j.project_id ≡ old.project_id)
    (sound : IsSoundJob j) where
  abbrev job_session : Session
  job_session = with_job j (record s { calls = n })

  job_after :
      (id : String) (r : ComputeJob)
      → find id job_session.db.compute_jobs ≡ some r
      → (r ≡ j) ⊎ (find id s.db.compute_jobs ≡ some r)
  job_after id r now =
      let shown = rw (find-store id j old s.db.compute_jobs there) at now in
      elim (Bool-cases (j.id == id)) [
        | inl same ↦ inl (sym (some-injective j r (rw same at shown)))
        | inr other ↦ inr (rw other at shown)
      ]

  job_after-IsOwned :
      (id : String) (r : ComputeJob)
      → find id job_session.db.compute_jobs ≡ some r
      → IsOwned r.project_id s
  job_after-IsOwned id r now = elim (job_after id r now) [
    | inl new ↦
        let (p, owner) = h.job_owned j.id old there in
        (p, ap (λ q. find q s.db.projects) (ap (λ x. x.project_id) new ∙ home) ∙ owner)
    | inr before ↦ h.job_owned id r before
  ]

  job_after-IsSoundJob :
      (id : String) (r : ComputeJob) → find id job_session.db.compute_jobs ≡ some r → IsSoundJob r
  job_after-IsSoundJob id r now = elim (job_after id r now) [
    | inl new ↦ subst IsSoundJob (sym new) sound
    | inr before ↦ h.job_sound id r before
  ]

  -- A ComputeJob written together with an Event that records its status keeps the session valid.
  pub job_logged-IsValid :
      (a : Entry) (p : Project)
      → find a.project_id s.db.projects ≡ some p
      → records "COMPUTE_JOB" j.id
          (compute_execution_status_value j.execution_status)
          (event_in a p job_session)
        ≡ true
      → IsValid (logged a p job_session)
  unfolding logged prevent_artifact_identity_mutation artifact_kept
  job_logged-IsValid a p owner recorded = record {
    sequenced =
        logged-IsSequenced a p job_session owner (record { numbered = h.sequenced.numbered });
    audited =
        audited-job s (logged a p job_session) (event_in a p job_session) refl refl j refl refl
          recorded h.audited;
    kept = h.kept;
    task_keys = h.task_keys;
    job_keys = store-Distinct j s.db.compute_jobs h.job_keys;
    artifact_keys = h.artifact_keys;
    task_flushed = h.task_flushed;
    job_flushed = λ id gone. h.job_flushed id (find-store_none id j s.db.compute_jobs gone);
    artifact_flushed = h.artifact_flushed;
    task_owned =
        λ id r now. logged-IsOwned a p job_session r.project_id owner (h.task_owned id r now);
    job_owned =
        λ id r now. logged-IsOwned a p job_session r.project_id owner (job_after-IsOwned id r now);
    task_sound = h.task_sound;
    job_sound = job_after-IsSoundJob;
  }

  -- A ComputeJob written with the status that it had keeps the session valid.
  pub job_kept-IsValid : j.execution_status ≡ old.execution_status → IsValid job_session
  unfolding prevent_artifact_identity_mutation artifact_kept enforce_audited_state_changes
      task_audited job_audited
  job_kept-IsValid same = record {
    sequenced = record { numbered = h.sequenced.numbered };
    audited = audited-same_job (record s { calls = n }) old j there same h.audited;
    kept = h.kept;
    task_keys = h.task_keys;
    job_keys = store-Distinct j s.db.compute_jobs h.job_keys;
    artifact_keys = h.artifact_keys;
    task_flushed = h.task_flushed;
    job_flushed = λ id gone. h.job_flushed id (find-store_none id j s.db.compute_jobs gone);
    artifact_flushed = h.artifact_flushed;
    task_owned = λ id r now. h.task_owned id r now;
    job_owned = λ id r now. job_after-IsOwned id r now;
    task_sound = h.task_sound;
    job_sound = job_after-IsSoundJob;
  }

-- `EventLog.append` keeps the session valid.
pub append-IsValid : (a : Entry) → Keeps IsValid (append a)
append-IsValid a = record {
  at = λ s h. After-of IsValid (append a s) λ e returned.
      let (p, found, done) = append_inv a s e returned in rw done (logged-IsValid a p s h found);
}
