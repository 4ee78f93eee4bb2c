-- ===== src/History/Valid.antt =====
-- What holds after every history of the database.
use semi_automated_research.Base.{◌≡◌, refl, List, [], ◌∷◌, arith}
use semi_automated_research.Base.Exec.{ok}
use semi_automated_research.Base.Exec.Keeps.{Keeps, Keeps-pure, Keeps-bind, keeps_rules}
use semi_automated_research.Domain.TaskStatus.{TaskStatus}
use semi_automated_research.Db.Table.{find}
use semi_automated_research.Db.Models.{task_row}
use semi_automated_research.Db.Session.{Env, Session}
use semi_automated_research.Db.Session.Guard.{
  transaction, enforce_audited_state_changes, prevent_artifact_identity_mutation,
}
use semi_automated_research.EventLog.Sequence.{counter}
use semi_automated_research.Invariant.{IsValid}
use semi_automated_research.Invariant.Flush.{written, transaction-IsValid, transaction_commits}
use semi_automated_research.Invariant.Transitions.{transition_task-IsValid}
use semi_automated_research.Invariant.Jobs.{
  transition_compute_job-IsValid, update_observation_status-IsValid,
}
use semi_automated_research.Readiness.Valid.{reconcile-IsValid, recover_expired_leases-IsValid}
use semi_automated_research.Artifacts.Valid.{enter_artifact-IsValid}
use semi_automated_research.Dispatcher.Valid.{claim-IsValid}
use semi_automated_research.Reconciler.Valid.{
  mark_submitted-IsValid, poll_failed-IsValid, record_observation-IsValid, close_job-IsValid,
}
use semi_automated_research.Controller.Valid.{verify_completed_work-IsValid}
use semi_automated_research.ProjectState.Valid.{
  create_project-IsValid, create_task-IsValid, create_compute_job-IsValid,
}
use semi_automated_research.History.{
  Call, create_project, create_task, create_compute_job, transition_task, transition_compute_job,
  update_observation_status, reconcile, recover_expired_leases, claim, mark_submitted, poll_failed,
  record_observation, enter_artifact, close_job, verify_completed_work, made, all_made, started,
  history,
}

made-IsValid : (c : Call) → Keeps IsValid (made c)
unfolding made
made-IsValid (create_project a) = search (keeps_rules, create_project-IsValid)
made-IsValid (create_task a) = search (keeps_rules, create_task-IsValid)
made-IsValid (create_compute_job a) = search (keeps_rules, create_compute_job-IsValid)
made-IsValid (transition_task id to options) = transition_task-IsValid id to options
made-IsValid (transition_compute_job id to options) = transition_compute_job-IsValid id to options
made-IsValid (update_observation_status id status correlation_id payload) =
    update_observation_status-IsValid id status correlation_id payload
made-IsValid (reconcile now) = search (keeps_rules, reconcile-IsValid)
made-IsValid (recover_expired_leases now) = search (keeps_rules, recover_expired_leases-IsValid)
made-IsValid (claim lease codec id spec route prepared correlation_id) =
    search (keeps_rules, claim-IsValid)
made-IsValid (mark_submitted id external_id) = search (keeps_rules, mark_submitted-IsValid)
made-IsValid (poll_failed interval now e id) = poll_failed-IsValid interval now e id
made-IsValid (record_observation interval o) = record_observation-IsValid interval o
made-IsValid (enter_artifact storage a digest size) = search (keeps_rules, enter_artifact-IsValid)
made-IsValid (close_job id correlation_id) = search (keeps_rules, close_job-IsValid)
made-IsValid (verify_completed_work repr codec) =
    search (keeps_rules, verify_completed_work-IsValid)

all_made-IsValid : (cs : List Call) → Keeps IsValid (all_made cs)
unfolding all_made
all_made-IsValid [] = Keeps-pure tt
all_made-IsValid (c ∷ cs) =
    Keeps-bind (made c) (λ _. all_made cs) (made-IsValid c) (λ _. all_made-IsValid cs)

started-IsValid : (env : Env) → IsValid (started env)
unfolding find counter enforce_audited_state_changes prevent_artifact_identity_mutation
started-IsValid env = record {
  sequenced = record { numbered = λ p. refl };
  audited = refl;
  kept = refl;
  task_keys = tt;
  job_keys = tt;
  artifact_keys = tt;
  task_flushed = λ id gone. gone;
  job_flushed = λ id gone. gone;
  artifact_flushed = λ id gone. gone;
  task_owned = λ id t found. absurd (ground arith);
  job_owned = λ id j found. absurd (ground arith);
  task_sound = λ id t found. absurd (ground arith);
  job_sound = λ id j found. absurd (ground arith);
}

-- After every history of the database, whatever its calls and their order, the session is valid: the
-- Events of each Project are numbered from 1 without a gap up to its `event_seq`; no two Tasks, no two
-- ComputeJobs and no two Artifacts have one id; every Task and every ComputeJob belongs to a Project
-- that exists; a Task that runs, is verified or has succeeded bears its start and an attempt; a Task that
-- has ended bears its end and no lease; and a ComputeJob that is submitted, runs or has ended bears that
-- instant.
pub history-IsValid : (env : Env) (ts : List (List Call)) → IsValid (history env ts)
unfolding history
history-IsValid env [] = started-IsValid env
history-IsValid env (cs ∷ earlier) =
    transaction-IsValid (all_made cs) (all_made-IsValid cs) (history env earlier)
      (history-IsValid env earlier)

-- After every history, a transaction whose calls all return is committed as it stands: no listener of
-- db/session.py refuses its flush.
pub history_commits :
    (env : Env) (ts : List (List Call)) (cs : List Call) (s : Session)
    → all_made cs (history env ts) ≡ (ok tt, s)
    → transaction (all_made cs) (history env ts) ≡ (ok tt, written s)
history_commits env ts cs s returned =
    transaction_commits (all_made cs) (history env ts) tt s returned
      (rw returned at ((all_made-IsValid cs).at (history env ts) (history-IsValid env ts)))
