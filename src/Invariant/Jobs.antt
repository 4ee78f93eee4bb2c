-- ===== src/Invariant/Jobs.antt =====
-- The operations on ComputeJobs of services/transitions.py keep `IsValid`.
use mathlib.Core.Path.{subst}
use semi_automated_research.Base.{
  ℕ, String, ◌≡◌, refl, sym, inl, inr, true, false, Option, none, some, arith, ◌==◌, string_eq,
  contains, Bool-cases, Option-cases, text_eq_refl,
}
use semi_automated_research.Base.Json.{Fields}
use semi_automated_research.Base.Exec.{◌>>=◌}
use semi_automated_research.Base.Exec.Keeps.{After, Keeps}
use semi_automated_research.Domain.ComputeStatus.{
  ComputeExecutionStatus, compute_execution_status_eq, compute_execution_status_value,
}
use semi_automated_research.Domain.Observation.{ObservationStatus, observation_status_eq}
use semi_automated_research.Db.Table.{find, find_self}
use semi_automated_research.Db.Models.{Project, ComputeJob, project_row, compute_job_row}
use semi_automated_research.Db.Session.{Session, given_or_now, with_job}
use semi_automated_research.Db.Session.Guard.{records}
use semi_automated_research.EventLog.Sequence.{event_in}
use semi_automated_research.Transitions.{
  JobOptions, unexpected_job, moved_job, transition_compute_job, update_observation_status,
}
use semi_automated_research.Transitions.Tables.{compute_transitions}
use semi_automated_research.Transitions.RunJob.{
  job_entry, job_written, transition_job-cases, transition_job_same, transition_job_refused,
  transition_job_missing, observation_entry, observed_job, observation_same, observation-cases,
}
use semi_automated_research.Invariant.{IsValid, IsSoundJob}
use semi_automated_research.Invariant.Writes.{job_logged-IsValid, job_kept-IsValid, logged-IsValid}

-- A legal change leaves a sound ComputeJob sound.
moved_job-IsSoundJob :
    (to : ComputeExecutionStatus) (now : ℕ) (j : ComputeJob)
    → contains to (compute_transitions j.execution_status) ≡ true
    → IsSoundJob j
    → IsSoundJob (moved_job to now j)
unfolding moved_job
moved_job-IsSoundJob to now j legal h = ground arith

moved_job_keys :
    (to : ComputeExecutionStatus) (now : ℕ) (j : ComputeJob)
    → ((moved_job to now j).id ≡ j.id)
      × ((moved_job to now j).project_id ≡ j.project_id)
      × ((moved_job to now j).execution_status ≡ to)
unfolding moved_job
moved_job_keys to now j = ground arith

job_recorded :
    (j : ComputeJob) (to : ComputeExecutionStatus) (now : ℕ) (e : String) (options : JobOptions)
    (p : Project) (s : Session)
    → records "COMPUTE_JOB"
        (moved_job to now j).id
        (compute_execution_status_value (moved_job to now j).execution_status)
        (event_in (job_entry j to e options) p s)
      ≡ true
unfolding event_in
job_recorded j to now e options p s =
    let (id, _, status) = moved_job_keys to now j in
    rw (id, status, text_eq_refl j.id, text_eq_refl (compute_execution_status_value to)) refl

legal-IsValid :
    (id : String) (to : ComputeExecutionStatus) (options : JobOptions) (s : Session)
    (j : ComputeJob)
    → IsValid s
    → find id s.db.compute_jobs ≡ some j
    → unexpected_job options.expected_status j.execution_status ≡ false
    → (to == j.execution_status) ≡ false
    → contains to (compute_transitions j.execution_status) ≡ true
    → After IsValid (transition_compute_job id to options s)
legal-IsValid id to options s j h found expected other legal =
    let (p, owner) = h.job_owned id j found in
    let (e, _, done) = transition_job-cases id to options s j p found owner expected other legal in
    let (now, n) = given_or_now options.now s in
    let (same, home, status) = moved_job_keys to now j in
    let there = same_key same (find_self id s.db.compute_jobs j found) in
    elim done [
      | inl returned ↦ rw returned (
          job_logged-IsValid s (moved_job to now j) j n h there home
            (moved_job-IsSoundJob to now j legal (h.job_sound id j found))
            (job_entry j to e options) p owner
            (job_recorded j to now e options p (job_written j to options s)))
      | inr raised ↦ rw raised tt
    ]
  where
    same_key :
        {i k : String}
        → i ≡ k
        → find k s.db.compute_jobs ≡ some j
        → find i s.db.compute_jobs ≡ some j
    same_key e f = subst (λ k. find k s.db.compute_jobs ≡ some j) (sym e) f

-- `transition_compute_job` keeps the session valid, whatever it is asked for.
pub transition_compute_job-IsValid :
    (id : String) (to : ComputeExecutionStatus) (options : JobOptions)
    → Keeps IsValid (transition_compute_job id to options)
transition_compute_job-IsValid id to options = record {
  at = λ s h. elim (Option-cases (find id s.db.compute_jobs)) [
    | inl missing ↦ rw (transition_job_missing id to options s missing) tt
    | inr (j, found) ↦
        elim (Bool-cases (unexpected_job options.expected_status j.execution_status)) [
          | inl odd ↦ rw (transition_job_refused id to options s j found (inl odd)) tt
          | inr usual ↦ elim (Bool-cases (to == j.execution_status)) [
            | inl same ↦ rw (transition_job_same id to options s j found usual same) h
            | inr other ↦ elim (Bool-cases (contains to (compute_transitions j.execution_status))) [
              | inl legal ↦ legal-IsValid id to options s j h found usual other legal
              | inr illegal ↦
                  rw (transition_job_refused id to options s j found (inr (other, illegal))) tt
            ]
          ]
        ]
  ];
}

observation_missing :
    (id : String) (status : ObservationStatus) (correlation_id : Option String)
    (payload : Option Fields) (s : Session)
    → find id s.db.compute_jobs ≡ none
    → After IsValid (update_observation_status id status correlation_id payload s)
unfolding ◌>>=◌ update_observation_status
observation_missing id status correlation_id payload s missing = rw missing tt

-- `update_observation_status` keeps the session valid.
pub update_observation_status-IsValid :
    (id : String) (status : ObservationStatus) (correlation_id : Option String)
    (payload : Option Fields)
    → Keeps IsValid (update_observation_status id status correlation_id payload)
update_observation_status-IsValid id status correlation_id payload = record {
  at = λ s h. elim (Option-cases (find id s.db.compute_jobs)) [
    | inl missing ↦ observation_missing id status correlation_id payload s missing
    | inr (j, found) ↦ elim (Bool-cases (j.observation_status == status)) [
      | inl same ↦ rw (observation_same id status correlation_id payload s j found same) h
      | inr other ↦
          let (p, owner) = h.job_owned id j found in
          let sound = h.job_sound id j found in
          elim (observation-cases id status correlation_id payload s j found p owner other) [
            | inr raised ↦ rw raised tt
            | inl returned ↦ rw returned (
                logged-IsValid (observation_entry j status correlation_id payload) p
                  (with_job (observed_job status j) s)
                  (job_kept-IsValid s (observed_job status j) j s.calls h
                    (find_self id s.db.compute_jobs j found) refl
                    (record {
                      submitted = sound.submitted;
                      started = sound.started;
                      finished = sound.finished;
                    })
                    refl)
                  owner)
          ]
    ]
  ];
}
