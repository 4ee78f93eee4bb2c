-- ===== src/Lib.antt =====
-- The Semi-Automated Research System: the state of its control plane, the choice of where a computation
-- runs, and the controller that submits, observes, collects and verifies it.
--
-- The program (src/research_controller) keeps Projects, Tasks, ComputeJobs, Events and Artifacts in a
-- SQLite database. Its services change them inside transactions, and every change of a status writes an
-- Event in the same transaction; a listener on the session refuses a flush that lacks it. A Task becomes
-- READY when its dependencies have succeeded; a Task of kind compute is routed to a provider that
-- offers what it asks for. A tick of the controller collects and polls the ComputeJobs, gives back Tasks
-- whose lease has expired, submits CREATED ComputeJobs, readies Tasks, verifies the Tasks whose run has
-- ended, and claims READY Tasks with a lease, making a ComputeJob for each.
--
-- Files:
--   Base, Base/*           notation, equality, lists, JSON values, and methods that read and write a
--                          state and may raise (Base/Exec), with the rules for their invariants.
--   Domain/*               domain/enums.py: each enum is a data type, `<enum>_value` its text.
--   Db/Models              db/models.py: each table is a record, its columns the fields.
--   Db/Table, Db/Keys      a table as a list of rows in the order of insertion, and its keys.
--   Db/Session/*           db/session.py, db/base.py, domain/ids.py: a session holds the tables as they
--                          stand, as they were flushed last, and the Events that are new since. `flush`
--                          runs the listeners `enforce_audited_state_changes` and
--                          `prevent_artifact_identity_mutation`; a query flushes first; `transaction`
--                          commits or rolls back.
--   EventLog, EventLog/*   services/event_log.py.
--   Transitions/*          services/transitions.py.
--   Readiness/*            services/task_readiness.py.
--   ProjectState/*         services/project_state.py.
--   Invariant/*            what every operation of the services keeps.
--   History/*              transactions of all services one after another, from empty tables on.
--   Compute/Protocol       protocols/compute.py.
--   Compute/Registry       compute/registry.py and compute/base.py.
--   Compute/Router/*       compute/router.py.
--   Compute/Local/*        compute/local/provider.py: the offers, and `submit` in its three steps, so
--                          that a stop of the process between two of them is a machine of its own;
--                          Compute/Local/Poll: `poll`; Compute/Local/Collect: `collect`;
--                          Compute/Local/Prepare: `prepare` and `cancel`; all over what each read of the
--                          machine answers, where a log may grow while it is read.
--   Compute/Codec, Compute/Effects
--                          pydantic's reading and writing of specifications, and the asynchronous methods
--                          of a provider: parameters.
--   World/*                the session, the files and the outside of the process; a transaction rolls back
--                          the first alone.
--   Artifacts/*            artifacts/store.py.
--   Validators/*           services/validators.py.
--   Dispatcher/*           services/dispatcher.py.
--   Reconciler/*           services/reconciler.py.
--   Controller/*           controller.py: `tick`, `verify_completed_work`, `run_until_idle`.
--   Samples/*              sample rows and the theorems applied to them.
--
-- An object that a method takes or returns is given by its id, and read from its table, so that two
-- references to one row see the same row. Instants are counted in microseconds. The clock and
-- `uuid4().hex` are functions of the number of the call: an id that clashes with a row, of an Event too,
-- makes the insertion raise `IntegrityError`, and a theorem that needs new ids says so. The order in which
-- the query of task readiness reads the Tasks is a parameter, since it hangs on the indexes; the other
-- queries without an order are answered in the order of insertion. A constraint is tested when the row
-- is added, where the program meets it at the flush that follows. Memory sizes are counted in the least
-- unit of a double, and the rounding of a GPU's memory, the printing of numbers and the answers of the
-- operating system are parameters.
--
-- `run_until_idle` runs on fuel, one unit a round: more units than the time-out has units of time are
-- enough, where the clock of the event loop moves on from round to round. No other loop needs fuel: all of
-- them run over the rows of a query or over a list of arguments. What a provider does to the machine
-- while a method runs is one step, and no other process writes the database between two transactions of a
-- tick.
--
-- Not modelled: the engine and its PRAGMAs, CHECK constraints and indexes; agent runs; the runner, the
-- command line, the log and the observability reports, which are input and output; the parsing of what
-- nvidia-smi prints. The controller's side takes the methods of a provider as parameters. Two sessions do
-- not interleave: SQLite lets one transaction write at a time.
mod Base
pub mod Domain
pub mod Db
pub mod EventLog
pub mod Transitions
pub mod Invariant
pub mod Readiness
pub mod ProjectState
pub mod World
pub mod History
pub mod Artifacts
pub mod Validators
pub mod Dispatcher
pub mod Reconciler
pub mod Controller
pub mod Samples
pub mod Compute
