-- ===== src/Invariant/Edits.antt =====
-- Assignments to columns of a Task, a ComputeJob or an Artifact that keep `IsValid`: the status, the
-- key and the owner stay, and what the status speaks of.
use semi_automated_research.Base.{
  String, ◌≡◌, refl, sym, ap, all-append, ◌∙◌, ◌++◌, List, inl, inr, true, none, some, ◌∷◌, [], all,
  Option-cases,
}
use semi_automated_research.Base.Exec.{◌>>=◌}
use semi_automated_research.Base.Exec.Keeps.{Keeps}
use semi_automated_research.Db.Table.{find, find_self, store, all-store, all-find}
use semi_automated_research.Db.Keys.{
  Distinct, store-Distinct, append-Distinct, find-store_none, find-append_none,
}
use semi_automated_research.Db.Models.{
  Task, ComputeJob, Artifact, TaskArtifact, task_row, compute_job_row, artifact_row,
}
use semi_automated_research.Db.Session.{
  Session, with_new_artifact, with_new_task_artifact, edit_task, edit_job, edit_artifact,
}
use semi_automated_research.Db.Session.Guard.{
  enforce_audited_state_changes, prevent_artifact_identity_mutation, task_audited, job_audited,
  artifact_kept, identity_kept,
}
use semi_automated_research.Invariant.{IsValid, IsSoundTask, IsSoundJob}
use semi_automated_research.Invariant.Writes.{task_kept-IsValid, job_kept-IsValid}

pub record IsQuietTask (f : Task → Task) : Type 0 where
  pub id : (t : Task) → (f t).id ≡ t.id
  pub project_id : (t : Task) → (f t).project_id ≡ t.project_id
  pub status : (t : Task) → (f t).status ≡ t.status
  pub sound : (t : Task) → IsSoundTask t → IsSoundTask (f t)

pub record IsQuietJob (f : ComputeJob → ComputeJob) : Type 0 where
  pub id : (j : ComputeJob) → (f j).id ≡ j.id
  pub project_id : (j : ComputeJob) → (f j).project_id ≡ j.project_id
  pub status : (j : ComputeJob) → (f j).execution_status ≡ j.execution_status
  pub sound : (j : ComputeJob) → IsSoundJob j → IsSoundJob (f j)

pub edit_task-IsValid :
    (id : String) (f : Task → Task) → IsQuietTask f → Keeps IsValid (edit_task id f)
unfolding edit_task ◌>>=◌
edit_task-IsValid id f q = record {
  at = λ s h. elim (Option-cases (find id s.db.tasks)) [
    | inl missing ↦ rw missing tt
    | inr (t, found) ↦ rw found (
        task_kept-IsValid s (f t) t s.calls h
          (ap (λ k. find k s.db.tasks) (q.id t) ∙ find_self id s.db.tasks t found) (q.project_id t)
          (q.sound t (h.task_sound id t found)) (q.status t))
  ];
}

pub edit_job-IsValid :
    (id : String) (f : ComputeJob → ComputeJob) → IsQuietJob f → Keeps IsValid (edit_job id f)
unfolding edit_job ◌>>=◌
edit_job-IsValid id f q = record {
  at = λ s h. elim (Option-cases (find id s.db.compute_jobs)) [
    | inl missing ↦ rw missing tt
    | inr (j, found) ↦ rw found (
        job_kept-IsValid s (f j) j s.calls h
          (ap (λ k. find k s.db.compute_jobs) (q.id j) ∙ find_self id s.db.compute_jobs j found)
          (q.project_id j) (q.sound j (h.job_sound id j found)) (q.status j))
  ];
}

-- Other Artifacts, and other rows of task_artifacts.
abbrev with_artifacts : List Artifact → List TaskArtifact → Session → Session
with_artifacts rows links s = record s {
  db = record s.db { artifacts = rows; task_artifacts = links };
}

with_artifacts-IsValid :
    (s : Session) (rows : List Artifact) (links : List TaskArtifact)
    → IsValid s
    → all (artifact_kept s) rows ≡ true
    → Distinct rows
    → ((id : String) → find id rows ≡ none → find id s.flushed.artifacts ≡ none)
    → IsValid (with_artifacts rows links s)
unfolding enforce_audited_state_changes prevent_artifact_identity_mutation task_audited job_audited
    artifact_kept
with_artifacts-IsValid s rows links h kept keys flushed = record {
  sequenced = record { numbered = h.sequenced.numbered };
  audited = h.audited;
  kept = kept;
  task_keys = h.task_keys;
  job_keys = h.job_keys;
  artifact_keys = keys;
  task_flushed = h.task_flushed;
  job_flushed = h.job_flushed;
  artifact_flushed = flushed;
  task_owned = h.task_owned;
  job_owned = h.job_owned;
  task_sound = h.task_sound;
  job_sound = h.job_sound;
}

pub with_new_task_artifact-IsValid :
    (a : TaskArtifact) (s : Session) → IsValid s → IsValid (with_new_task_artifact a s)
unfolding prevent_artifact_identity_mutation
with_new_task_artifact-IsValid a s h =
    with_artifacts-IsValid s s.db.artifacts (s.db.task_artifacts ++ a ∷ []) h h.kept h.artifact_keys
      h.artifact_flushed

artifact_kept_new :
    (s : Session) (a : Artifact) → find a.id s.flushed.artifacts ≡ none → artifact_kept s a ≡ true
unfolding artifact_kept
artifact_kept_new s a absent = rw (absent, artifact_kept) refl

-- A new Artifact, under an id that is free.
pub with_new_artifact-IsValid :
    (a : Artifact) (s : Session)
    → IsValid s
    → find a.id s.db.artifacts ≡ none
    → IsValid (with_new_artifact a s)
unfolding prevent_artifact_identity_mutation
with_new_artifact-IsValid a s h free =
    with_artifacts-IsValid s (s.db.artifacts ++ a ∷ []) s.db.task_artifacts h
      (rw
        (
          all-append (artifact_kept s) s.db.artifacts (a ∷ []),
          h.kept,
          artifact_kept_new s a (h.artifact_flushed a.id free),
        )
        refl)
      (append-Distinct s.db.artifacts a h.artifact_keys free)
      (λ id gone. h.artifact_flushed id (find-append_none id s.db.artifacts a gone))

pub record IsQuietArtifact (f : Artifact → Artifact) : Type 0 where
  pub id : (a : Artifact) → (f a).id ≡ a.id
  pub identity : (old a : Artifact) → identity_kept old (f a) ≡ identity_kept old a

artifact_kept_old :
    (s : Session) (a old : Artifact)
    → find a.id s.flushed.artifacts ≡ some old
    → artifact_kept s a ≡ identity_kept old a
unfolding artifact_kept
artifact_kept_old s a old there = rw (there, artifact_kept) refl

artifact_kept-quiet :
    (s : Session) (f : Artifact → Artifact) (a : Artifact)
    → IsQuietArtifact f
    → artifact_kept s (f a) ≡ artifact_kept s a
artifact_kept-quiet s f a q =
    let same = ap (λ k. find k s.flushed.artifacts) (q.id a) in
    elim (Option-cases (find a.id s.flushed.artifacts)) [
      | inl absent ↦ artifact_kept_new s (f a) (same ∙ absent) ∙ sym (artifact_kept_new s a absent)
      | inr (old, there) ↦
          artifact_kept_old s (f a) old (same ∙ there)
          ∙ q.identity old a
          ∙ sym (artifact_kept_old s a old there)
    ]

pub edit_artifact-IsValid :
    (id : String) (f : Artifact → Artifact) → IsQuietArtifact f → Keeps IsValid (edit_artifact id f)
unfolding edit_artifact prevent_artifact_identity_mutation ◌>>=◌
edit_artifact-IsValid id f q = record {
  at = λ s h. elim (Option-cases (find id s.db.artifacts)) [
    | inl missing ↦ rw missing tt
    | inr (a, found) ↦ rw found (
        with_artifacts-IsValid s (store (f a) s.db.artifacts) s.db.task_artifacts h
          (all-store (artifact_kept s) (artifact_kept s) (f a) s.db.artifacts (λ r k. k)
            (artifact_kept-quiet s f a q
              ∙ all-find (artifact_kept s) id s.db.artifacts a h.kept found)
            h.kept)
          (store-Distinct (f a) s.db.artifacts h.artifact_keys)
          (λ k gone. h.artifact_flushed k (find-store_none k (f a) s.db.artifacts gone)))
  ];
}
