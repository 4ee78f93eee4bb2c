-- ===== src/Samples/Services.antt =====
-- The theorems on the services, applied to the sample session and to a short history.
use mathlib.Core.Path.{subst}
use semi_automated_research.Base.{
  ◌≤◌, String, ◌≡◌, refl, inr, none, some, List, map, any, sym, arith, ◌==◌, [], ◌∷◌, ◌++◌,
  contains, string_eq, length, if◌then◌else◌,
}
use semi_automated_research.Base.Exec.{
  ok, err, invalid_transition, ◌>>=◌, pure, gets, modify, or_raise, raise_if, write_unless,
}
use semi_automated_research.ProjectState
use semi_automated_research.ProjectState.Rows.{project_clash, task_clash, with_idempotency_key}
use semi_automated_research.Domain.TaskStatus.{
  TaskStatus, task_status_eq, ready, running, verifying, succeeded,
}
use semi_automated_research.Domain.ComputeStatus.{ComputeExecutionStatus}
use semi_automated_research.Domain.Observation.{ObservationStatus}
use semi_automated_research.Db.Models.{
  Task, ComputeJob, Event, task_row, project_row, compute_job_row,
}
use semi_automated_research.Db.Table.{find, store}
use semi_automated_research.Db.Session.{
  Session, with_job, new_id, or_new_id, given_or_drawn, utc_now,
}
use semi_automated_research.Db.Session.Guard.{
  transaction, flush, select, task_audited, enforce_audited_state_changes,
  prevent_artifact_identity_mutation,
}
use semi_automated_research.EventLog.{Entry, entry, append, add_event}
use semi_automated_research.EventLog.Sequence.{event_in, logged, append_ok, id_used}
use semi_automated_research.Transitions.{
  task_defaults, job_defaults, transition_task, transition_compute_job, update_observation_status,
}
use semi_automated_research.Transitions.Paths.{Within, succeeds_by_verifying, job_changes_bounded}
use semi_automated_research.Transitions.Run.{transition_task_refused}
use semi_automated_research.Transitions.RunJob.{
  transition_job_refused, observation_entry, observed_job, observation_changed,
}
use semi_automated_research.Transitions.Written.{
  IsTaskChange, IsJobChange, IsChangeEvent, transition_task_legal, transition_job_legal,
}
use semi_automated_research.EventLog.Fresh.{IsFresh, IsUnique, event_id}
use semi_automated_research.Samples.Ids.{sample_env-IsUnique, older_id}
use semi_automated_research.Invariant.{IsValid}
use semi_automated_research.Invariant.Flush.{written}
use semi_automated_research.Dispatcher.{claim}
use semi_automated_research.Samples.Claiming.{lease}
use semi_automated_research.Samples.Accepting.{codec}
use semi_automated_research.Samples.Submitting.{job}
use semi_automated_research.Samples.Routing.{gpu_spec, gpu_route}
use semi_automated_research.Readiness.{reconcile}
use semi_automated_research.Readiness.Round.{status_in}
use semi_automated_research.Readiness.Ready.{IsScan, to_ready, reconcile_lem}
use semi_automated_research.History
use semi_automated_research.History.{Call, history, all_made, made}
use semi_automated_research.History.Valid.{history-IsValid, history_commits}
use semi_automated_research.Samples.{
  sample_env, project_args, task_args, project_1, task_1, job_1, sample_session,
  sample_session-IsSequenced,
}

-- A Project, whose id the clock and the ids make up, and then a pass of `reconcile`.
abbrev sample_history : List (List Call)
sample_history = (History.reconcile none ∷ []) ∷ (History.create_project project_args ∷ []) ∷ []

history-IsValid_example : IsValid (history sample_env sample_history)
history-IsValid_example = history-IsValid sample_env sample_history

-- The session after the Project has been created, before its transaction ends.
abbrev created : Session
created = (all_made (History.create_project project_args ∷ []) (history sample_env [])).1

history_commits_example :
    transaction (all_made (History.create_project project_args ∷ [])) (history sample_env [])
    ≡ (ok tt, written created)
unfolding ◌>>=◌ pure gets modify or_raise raise_if write_unless all_made made
    ProjectState.create_project new_id or_new_id given_or_drawn utc_now append add_event find store
    project_clash flush enforce_audited_state_changes prevent_artifact_identity_mutation history
history_commits_example =
    history_commits sample_env [] (History.create_project project_args ∷ []) created refl

-- A Project with one PENDING Task.
abbrev pending_history : List (List Call)
pending_history =
    (History.create_task (record task_args { project_id = "prj_0" }) ∷ [])
    ∷ (History.create_project project_args ∷ [])
    ∷ []

abbrev waiting : Session
waiting = history sample_env pending_history

abbrev ids_of : List Event → List String
ids_of = map (λ (e : Event). e.id)

waiting_lem :
    (waiting.env ≡ sample_env)
    × (waiting.calls ≡ 9)
    × (ids_of waiting.db.events ≡ event_id sample_env 3 ∷ event_id sample_env 7 ∷ [])
unfolding ◌>>=◌ pure gets modify or_raise raise_if write_unless all_made made
    ProjectState.create_project ProjectState.create_task ProjectState.insert_task
    ProjectState.add_dependencies new_id or_new_id given_or_drawn utc_now append add_event find
    store project_clash task_clash with_idempotency_key flush select transaction
    enforce_audited_state_changes prevent_artifact_identity_mutation history task_audited
waiting_lem = (refl, refl, refl)

id_used-ids_of :
    (id : String) (es : List Event) → id_used id es ≡ any (λ old. old == id) (ids_of es)
id_used-ids_of id [] = refl
id_used-ids_of id (e ∷ es) = ground (arith, id_used-ids_of id es)

drawn-IsFresh :
    (s : Session)
    → s.env ≡ sample_env
    → s.calls ≡ 9
    → ids_of s.db.events ≡ event_id sample_env 3 ∷ event_id sample_env 7 ∷ []
    → IsFresh s
drawn-IsFresh s env calls ids n above =
    let first = older_id 3 n (omega (arith, above, calls)) in
    let second = older_id 7 n (omega (arith, above, calls)) in
    rw (id_used-ids_of, ids, env, first, second) refl

reconcile_lem_example :
    (after : Session) × (reconcile (some 5) waiting ≡ (ok (to_ready 5 waiting), after))
    × IsValid after
    × ((id : String)
        → status_in after id ≡ (
            if contains id (to_ready 5 waiting)
            then some TaskStatus.ready
            else status_in waiting id))
reconcile_lem_example =
    let (env, calls, ids) = waiting_lem in
    reconcile_lem (some 5) waiting (history-IsValid sample_env pending_history)
      (subst IsUnique (sym env) sample_env-IsUnique) (drawn-IsFresh waiting env calls ids)
      (subst (λ e. IsScan e.scan) (sym env) (λ tasks distinct. (distinct, λ id. refl)))

transition_task_legal_example :
    (s' : Session) × (transition_task "tsk_1" TaskStatus.ready task_defaults sample_session
      ≡ (ok tt, s'))
    × ((new : Task) × (find "tsk_1" s'.db.tasks ≡ some new)
        × IsTaskChange TaskStatus.ready 0 task_1 new)
    × ((e : Event) × (s'.db.events ≡ [] ++ e ∷ [])
        × IsChangeEvent "prj_1" "TASK" "tsk_1" "PENDING" "READY" 1 e)
unfolding find
transition_task_legal_example =
    transition_task_legal "tsk_1" sample_session project_1 sample_session-IsSequenced
      (λ n above. refl) TaskStatus.ready task_defaults task_1 refl refl refl refl

transition_task_refused_example :
    transition_task "tsk_1" TaskStatus.succeeded task_defaults sample_session
    ≡ (err invalid_transition, sample_session)
unfolding find
transition_task_refused_example =
    transition_task_refused "tsk_1" TaskStatus.succeeded task_defaults sample_session task_1 refl
      (inr refl)

transition_job_legal_example :
    (s' : Session) × (transition_compute_job "job_1" ComputeExecutionStatus.submitted job_defaults
        sample_session
      ≡ (ok tt, s'))
    × ((new : ComputeJob) × (find "job_1" s'.db.compute_jobs ≡ some new)
        × IsJobChange ComputeExecutionStatus.submitted 0 job_1 new)
    × ((e : Event) × (s'.db.events ≡ [] ++ e ∷ [])
        × IsChangeEvent "prj_1" "COMPUTE_JOB" "job_1" "CREATED" "SUBMITTED" 1 e)
unfolding find
transition_job_legal_example =
    transition_job_legal "job_1" sample_session project_1 sample_session-IsSequenced
      (λ n above. refl) ComputeExecutionStatus.submitted job_defaults job_1 refl refl refl refl refl

transition_job_refused_example :
    transition_compute_job "job_1" ComputeExecutionStatus.succeeded job_defaults sample_session
    ≡ (err invalid_transition, sample_session)
unfolding find
transition_job_refused_example =
    transition_job_refused "job_1" ComputeExecutionStatus.succeeded job_defaults sample_session
      job_1 refl (inr (refl, refl))

observation_changed_example :
    update_observation_status "job_1" ObservationStatus.unreachable none none sample_session ≡ (
      ok tt,
      logged
          (observation_entry job_1 ObservationStatus.unreachable none none)
          project_1
          (with_job (observed_job ObservationStatus.unreachable job_1) sample_session),
    )
unfolding find
observation_changed_example =
    observation_changed "job_1" ObservationStatus.unreachable none none sample_session job_1 refl
      project_1 sample_session-IsSequenced refl refl refl

abbrev sample_entry : Entry
sample_entry = entry "prj_1" "TASK_CREATED" "TASK" "tsk_1"

append_ok_example : append sample_entry sample_session ≡ (
  ok (event_in sample_entry project_1 sample_session),
  logged sample_entry project_1 sample_session,
)
unfolding find
append_ok_example =
    append_ok sample_entry sample_session project_1 sample_session-IsSequenced refl refl refl

-- A Task that fails once, is tried again and succeeds.
abbrev retried : List TaskStatus
retried = ready ∷ running ∷ TaskStatus.failed ∷ ready ∷ running ∷ verifying ∷ succeeded ∷ []

succeeds_by_verifying_example : Within (ready ∷ running ∷ verifying ∷ succeeded ∷ []) retried
succeeds_by_verifying_example = succeeds_by_verifying retried refl refl

abbrev job_run : List ComputeExecutionStatus
job_run =
    ComputeExecutionStatus.submitted ∷ ComputeExecutionStatus.running
    ∷ ComputeExecutionStatus.succeeded ∷ []

job_changes_bounded_example : length job_run ≤ 5
job_changes_bounded_example = job_changes_bounded job_run refl

-- A Task of the Project `prj_0` that is claimed and goes through all its statuses, each change in its
-- transaction.
abbrev finished_history : List (List Call)
finished_history =
    (History.transition_task "tsk_1" succeeded task_defaults ∷ [])
    ∷ (History.transition_task "tsk_1" verifying task_defaults ∷ [])
    ∷ (History.claim lease codec "tsk_1" (gpu_spec []) gpu_route job "corr_1" ∷ [])
    ∷ (History.transition_task "tsk_1" ready task_defaults ∷ [])
    ∷ (History.create_task (record task_args { project_id = "prj_0" }) ∷ [])
    ∷ (History.create_project project_args ∷ [])
    ∷ []

abbrev first_task : List Task → Task
first_task [] = task_1
first_task (t ∷ ts) = t

abbrev finished_task : Task
finished_task = first_task (history sample_env finished_history).db.tasks
