-- ===== src/Transitions/RunJob.antt =====
-- What `transition_compute_job` and `update_observation_status` do, on every branch.
use semi_automated_research.Base.{
  ◌+◌, String, ◌≡◌, refl, inl, inr, ◌⊎◌, true, false, Option, none, some, ◌==◌, string_eq, contains,
  Bool-cases,
}
use semi_automated_research.Base.Json.{Fields}
use semi_automated_research.Base.Exec.{
  ◌>>=◌, ok, err, invalid_transition, lookup_error, integrity_error,
}
use semi_automated_research.Domain.ComputeStatus.{
  ComputeExecutionStatus, compute_execution_status_eq, compute_execution_status_value,
}
use semi_automated_research.Domain.Observation.{
  ObservationStatus, observation_status_eq, observation_status_value,
}
use semi_automated_research.Db.Table.{find}
use semi_automated_research.Db.Models.{Project, ComputeJob, project_row, compute_job_row}
use semi_automated_research.Db.Session.{Session, with_job, given_or_now, or_utc_now}
use semi_automated_research.EventLog.{Entry, entry}
use semi_automated_research.EventLog.Sequence.{
  IsSequenced, logged, unlogged, event_in, id_used, append_ok, append-cases, no_key,
}
use semi_automated_research.Transitions.Tables.{compute_transitions, compute_event_type}
use semi_automated_research.Transitions.Paths.{compute_event_type_total}
use semi_automated_research.Transitions.{
  JobOptions, unexpected_job, moved_job, transition_compute_job, observation_event_type,
  update_observation_status,
}

-- The arguments of the Event that a change of a ComputeJob writes.
abbrev pub job_entry : ComputeJob → ComputeExecutionStatus → String → JobOptions → Entry
job_entry j to event_type options = record (entry j.project_id event_type "COMPUTE_JOB" j.id) {
  correlation_id = options.correlation_id;
  old_state = some (compute_execution_status_value j.execution_status);
  new_state = some (compute_execution_status_value to);
  payload = options.payload;
}

-- The session once the ComputeJob has been written and before the Event is.
abbrev pub job_written : ComputeJob → ComputeExecutionStatus → JobOptions → Session → Session
job_written j to options s =
    let (now, n) = given_or_now options.now s in
    with_job (moved_job to now j) (record s { calls = n })

module _ (id : String) (to : ComputeExecutionStatus) (options : JobOptions) (s : Session) where
  -- A change to another status, that was expected and that the table lists, writes the ComputeJob, and
  -- then its Event if the insertion is not refused.
  pub transition_job-cases :
      (j : ComputeJob) (p : Project)
      → find id s.db.compute_jobs ≡ some j
      → find j.project_id s.db.projects ≡ some p
      → unexpected_job options.expected_status j.execution_status ≡ false
      → (to == j.execution_status) ≡ false
      → contains to (compute_transitions j.execution_status) ≡ true
      → (e : String) × (compute_event_type to ≡ some e)
        × ((transition_compute_job id to options s
              ≡ (ok tt, logged (job_entry j to e options) p (job_written j to options s)))
            ⊎ (transition_compute_job id to options s ≡ (
              err integrity_error,
              unlogged (job_entry j to e options) p (job_written j to options s),
            )))
  unfolding ◌>>=◌ transition_compute_job or_utc_now
  transition_job-cases j p found owner expected other legal =
      let (e, known) = compute_event_type_total j.execution_status to legal in
      (
        e,
        known,
        elim (append-cases (job_entry j to e options) (job_written j to options s) p owner) [
          | inl written ↦ inl (rw (found, expected, other, legal, known, written) refl)
          | inr refused ↦ inr (rw (found, expected, other, legal, known, refused) refl)
        ],
      )

  -- In a sequenced log the insertion is not refused where the Event's id is new.
  pub transition_job-run :
      (j : ComputeJob) (p : Project) (e : String)
      → IsSequenced s
      → find id s.db.compute_jobs ≡ some j
      → find j.project_id s.db.projects ≡ some p
      → unexpected_job options.expected_status j.execution_status ≡ false
      → (to == j.execution_status) ≡ false
      → contains to (compute_transitions j.execution_status) ≡ true
      → compute_event_type to ≡ some e
      → id_used (event_in (job_entry j to e options) p (job_written j to options s)).id s.db.events
        ≡ false
      → transition_compute_job id to options s
        ≡ (ok tt, logged (job_entry j to e options) p (job_written j to options s))
  unfolding ◌>>=◌ transition_compute_job or_utc_now
  transition_job-run j p e h found owner expected other legal known new =
      let written =
        append_ok (job_entry j to e options) (job_written j to options s) p
          (record { numbered = h.numbered }) owner (no_key j.project_id s.db.events) new in
      rw (found, expected, other, legal, known, written) refl

  -- A ComputeJob that has the status already is left as it is, with no Event.
  pub transition_job_same :
      (j : ComputeJob)
      → find id s.db.compute_jobs ≡ some j
      → unexpected_job options.expected_status j.execution_status ≡ false
      → (to == j.execution_status) ≡ true
      → transition_compute_job id to options s ≡ (ok tt, s)
  unfolding ◌>>=◌ transition_compute_job
  transition_job_same j found expected same = rw (found, expected, same) refl

  -- A change of a ComputeJob that was not expected, or to another status that the table does not list,
  -- raises `InvalidTransition` and writes nothing.
  pub transition_job_refused :
      (j : ComputeJob)
      → find id s.db.compute_jobs ≡ some j
      → (unexpected_job options.expected_status j.execution_status ≡ true)
        ⊎ (((to == j.execution_status) ≡ false)
            × (contains to (compute_transitions j.execution_status) ≡ false))
      → transition_compute_job id to options s ≡ (err invalid_transition, s)
  unfolding ◌>>=◌ transition_compute_job
  transition_job_refused j found (inl odd) = rw (found, odd) refl
  transition_job_refused j found (inr (other, illegal)) =
      elim (Bool-cases (unexpected_job options.expected_status j.execution_status)) [
        | inl odd ↦ rw (found, odd) refl
        | inr usual ↦ rw (found, usual, other, illegal) refl
      ]

  pub transition_job_missing :
      find id s.db.compute_jobs ≡ none
      → transition_compute_job id to options s ≡ (err lookup_error, s)
  unfolding ◌>>=◌ transition_compute_job
  transition_job_missing missing = rw missing refl

-- The arguments of the Event that a change of the observation writes.
abbrev pub observation_entry :
    ComputeJob → ObservationStatus → Option String → Option Fields → Entry
observation_entry j status correlation_id payload =
    record (entry j.project_id (observation_event_type status) "COMPUTE_JOB" j.id) {
      correlation_id = correlation_id;
      old_state = some (observation_status_value j.observation_status);
      new_state = some (observation_status_value status);
      payload = payload;
    }

abbrev pub observed_job : ObservationStatus → ComputeJob → ComputeJob
observed_job status j = record j { observation_status = status; lock_version = j.lock_version + 1 }

module _ (id : String) (status : ObservationStatus) (correlation_id : Option String)
    (payload : Option Fields) (s : Session) (j : ComputeJob)
    (found : find id s.db.compute_jobs ≡ some j) where
  pub observation_same :
      (j.observation_status == status) ≡ true
      → update_observation_status id status correlation_id payload s ≡ (ok tt, s)
  unfolding ◌>>=◌ update_observation_status
  observation_same same = rw (found, same) refl

  -- A change of the observation to another status writes the ComputeJob, and then its Event if the
  -- insertion is not refused.
  pub observation-cases :
      (p : Project)
      → find j.project_id s.db.projects ≡ some p
      → (j.observation_status == status) ≡ false
      → (update_observation_status id status correlation_id payload s ≡ (
        ok tt,
        logged
            (observation_entry j status correlation_id payload)
            p
            (with_job (observed_job status j) s),
      ))
        ⊎ (update_observation_status id status correlation_id payload s ≡ (
          err integrity_error,
          unlogged
              (observation_entry j status correlation_id payload)
              p
              (with_job (observed_job status j) s),
        ))
  unfolding ◌>>=◌ update_observation_status
  observation-cases p owner other =
      elim (append-cases (observation_entry j status correlation_id payload)
        (with_job (observed_job status j) s) p owner) [
          | inl written ↦ inl (rw (found, other, written) refl)
          | inr refused ↦ inr (rw (found, other, refused) refl)
        ]

  -- In a sequenced log a change of the observation of a ComputeJob, whose Project exists, to another
  -- status, whose Event has a new id, returns: it has written the ComputeJob, its execution status as it
  -- was, and one Event.
  pub observation_changed :
      (p : Project)
      → IsSequenced s
      → find j.project_id s.db.projects ≡ some p
      → (j.observation_status == status) ≡ false
      → id_used
          (event_in
            (observation_entry j status correlation_id payload)
            p
            (with_job (observed_job status j) s)).id
          s.db.events
        ≡ false
      → update_observation_status id status correlation_id payload s ≡ (
        ok tt,
        logged
            (observation_entry j status correlation_id payload)
            p
            (with_job (observed_job status j) s),
      )
  unfolding ◌>>=◌ update_observation_status
  observation_changed p h owner other new =
      let written =
        append_ok (observation_entry j status correlation_id payload)
          (with_job (observed_job status j) s) p (record { numbered = h.numbered }) owner
          (no_key j.project_id s.db.events) new in
      rw (found, other, written) refl
