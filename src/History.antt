-- ===== src/History.antt =====
-- Histories of the database: transactions one after another, each making any calls of
-- services/project_state.py, services/transitions.py and services/task_readiness.py, and any bodies of
-- the transactions of services/dispatcher.py, services/reconciler.py, artifacts/store.py and
-- controller.py, from empty tables on. A transaction that raises is rolled back.
pub mod Valid
use semi_automated_research.Base.{ℕ, String, Option, List, [], ◌∷◌}
use semi_automated_research.Base.Json.{Fields, ℤ}
use semi_automated_research.Base.Exec.{Error, Exec, pure, ◌>>=◌, ◌>>◌}
use semi_automated_research.Domain.TaskStatus.{TaskStatus}
use semi_automated_research.Domain.ComputeStatus.{ComputeExecutionStatus}
use semi_automated_research.Domain.Observation.{ObservationStatus}
use semi_automated_research.Db.Session.{Db, Env, Session}
use semi_automated_research.Db.Session.Guard.{transaction}
use semi_automated_research.Transitions
use semi_automated_research.Transitions.{TaskOptions, JobOptions}
use semi_automated_research.Readiness
use semi_automated_research.ProjectState
use semi_automated_research.Artifacts
use semi_automated_research.Artifacts.{Storage, IngestArgs}
use semi_automated_research.Compute.Codec.{Codec}
use semi_automated_research.Compute.Protocol.{ComputeTaskSpec, PreparedJob, JobObservation}
use semi_automated_research.Compute.Router.{ComputeRoute}
use semi_automated_research.Dispatcher
use semi_automated_research.Dispatcher.{Lease}
use semi_automated_research.Reconciler.Records
use semi_automated_research.Controller
use semi_automated_research.ProjectState.Rows.{ProjectArgs, TaskArgs, JobArgs}

-- A call of a service, with its arguments.
pub data Call : Type 0 where
  create_project : ProjectArgs → Call
  create_task : TaskArgs → Call
  create_compute_job : JobArgs → Call
  transition_task : String → TaskStatus → TaskOptions → Call
  transition_compute_job : String → ComputeExecutionStatus → JobOptions → Call
  update_observation_status : String → ObservationStatus → Option String → Option Fields → Call
  reconcile : Option ℕ → Call
  recover_expired_leases : Option ℕ → Call
  claim : Lease → Codec → String → ComputeTaskSpec → ComputeRoute → PreparedJob → String → Call
  mark_submitted : String → String → Call
  poll_failed : ℕ → ℕ → Error → String → Call
  record_observation : ℕ → JobObservation → Call
  enter_artifact : Storage → IngestArgs → String → ℕ → Call
  close_job : String → String → Call
  verify_completed_work : (Option ℤ → String) → Codec → Call

-- What the call does; its answer is dropped.
unfoldable pub made : Call → Exec Session Unit
made (create_project a) = do ProjectState.create_project a; pure tt
made (create_task a) = do ProjectState.create_task a; pure tt
made (create_compute_job a) = do ProjectState.create_compute_job a; pure tt
made (transition_task id to options) = Transitions.transition_task id to options
made (transition_compute_job id to options) = Transitions.transition_compute_job id to options
made (update_observation_status id status correlation_id payload) =
    Transitions.update_observation_status id status correlation_id payload
made (reconcile now) = do Readiness.reconcile now; pure tt
made (recover_expired_leases now) = do Readiness.recover_expired_leases now; pure tt
made (claim lease codec id spec route prepared correlation_id) = do
  Dispatcher.claim lease codec id spec route prepared correlation_id
  pure tt
made (mark_submitted id external_id) = do Records.mark_submitted id external_id; pure tt
made (poll_failed interval now e id) = Records.poll_failed interval now e id
made (record_observation interval o) = Records.record_observation interval o
made (enter_artifact storage a digest size) = do
  Artifacts.enter_artifact storage a digest size
  pure tt
made (close_job id correlation_id) = do Records.close_job id correlation_id; pure tt
made (verify_completed_work repr codec) = do Controller.verify_completed_work repr codec; pure tt

-- The body of one transaction.
unfoldable pub all_made : List Call → Exec Session Unit
all_made [] = pure tt
all_made (c ∷ cs) = let rest = all_made cs in made c >>= λ _. rest

abbrev pub empty_db : Db
empty_db = record {
  projects = [];
  task_dependencies = [];
  task_artifacts = [];
  tasks = [];
  events = [];
  compute_jobs = [];
  artifacts = [];
}

-- A session on a fresh database.
abbrev pub started : Env → Session
started env = record { env = env; calls = 0; flushed = empty_db; db = empty_db; new_events = [] }

-- The session after the transactions, the latest first in the list.
unfoldable pub history : Env → List (List Call) → Session
history env [] = started env
history env (cs ∷ earlier) = let s = history env earlier in (transaction (all_made cs) s).1
