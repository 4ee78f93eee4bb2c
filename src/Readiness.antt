-- ===== src/Readiness.antt =====
-- services/task_readiness.py: `TaskReadinessService`, which readies Tasks whose dependencies have
-- succeeded and takes back Tasks whose lease has run out.
pub mod Valid
pub mod Round
pub mod Outcome
pub mod Ready
pub mod Safe
use semi_automated_research.Base.{
  ℕ, String, Option, none, some, Bool, true, false, not, ◌&&◌, List, [], ◌∷◌, map, ◌==◌, string_eq,
  contains, any, all, leb, ltb, where_rows, if◌then◌else◌,
}
use semi_automated_research.Base.Json.{str, empty, field}
use semi_automated_research.Base.Exec.{Exec, pure, gets, ◌>>=◌, ◌>>◌, collect}
use semi_automated_research.Domain.TaskStatus.{TaskStatus, task_status_eq}
use semi_automated_research.Domain.ComputeStatus.{
  ComputeExecutionStatus, compute_execution_status_eq,
}
use semi_automated_research.Db.Table.{find}
use semi_automated_research.Db.Models.{Task, TaskDependency, ComputeJob, task_row}
use semi_automated_research.Db.Session.{Db, Session, the_task, set_task, or_utc_now}
use semi_automated_research.Db.Session.Guard.{select}
use semi_automated_research.Transitions.{task_defaults, transition_task}

-- `NONTERMINAL_COMPUTE`.
abbrev pub nonterminal_compute : List ComputeExecutionStatus
nonterminal_compute =
    ComputeExecutionStatus.created ∷ ComputeExecutionStatus.submitted
    ∷ ComputeExecutionStatus.pending ∷ ComputeExecutionStatus.running
    ∷ ComputeExecutionStatus.collecting ∷ []

abbrev pub none_or_due : Option ℕ → ℕ → Bool
none_or_due none current = true
none_or_due (some t) current = leb t current

abbrev pub some_and_due : Option ℕ → ℕ → Bool
some_and_due none current = false
some_and_due (some t) current = leb t current

-- The WHERE clause of the query of `reconcile`, and the ids that it selects.
abbrev pub is_candidate : ℕ → Task → Bool
is_candidate current t = t.status == TaskStatus.pending && none_or_due t.not_before current

unfoldable pub candidates : (List Task → List Task) → ℕ → Db → List String
candidates scan current db = map (λ t. t.id) (where_rows (is_candidate current) (scan db.tasks))

-- The statuses of the Tasks that Task `id` depends on: the join of `tasks` and `task_dependencies`.
unfoldable pub statuses_of : List TaskDependency → List Task → String → List TaskStatus
statuses_of [] tasks id = []
statuses_of (d ∷ ds) tasks id =
    let rest = statuses_of ds tasks id in
    if d.task_id == id
    then elim (find d.depends_on_task_id tasks) [ none ↦ rest | some t ↦ t.status ∷ rest ]
    else rest

unfoldable pub dependency_states : String → Db → List TaskStatus
unfolding statuses_of
dependency_states id db = statuses_of db.task_dependencies db.tasks id

abbrev pub all_succeeded : List TaskStatus → Bool
all_succeeded = all (λ status. status == TaskStatus.succeeded)

-- The body of the loop of `reconcile`: the id is listed if the Task was readied.
unfoldable pub ready_if_satisfied : String → Exec Session (Option String)
ready_if_satisfied id = do
  states ← select (dependency_states id)
  if all_succeeded states
      then (do
        transition_task id TaskStatus.ready
            (record task_defaults { expected_status = some TaskStatus.pending })
        pure (some id))
      else pure none

-- `TaskReadinessService.reconcile`.
unfoldable pub reconcile : Option ℕ → Exec Session (List String)
reconcile now = do
  current ← or_utc_now now
  scan ← gets (λ s. s.env.scan)
  ids ← select (candidates scan current)
  collect ready_if_satisfied ids

-- The ids of the Tasks that the query of `recover_expired_leases` selects.
unfoldable pub expired : (List Task → List Task) → ℕ → Db → List String
expired scan current db =
    map (λ t. t.id)
      (where_rows
        (λ t.
          some_and_due t.lease_expires_at current
          && contains t.status (TaskStatus.ready ∷ TaskStatus.running ∷ []))
        (scan db.tasks))

-- `exists().where(...)`: a ComputeJob of the Task is not at its end.
unfoldable pub has_external_work : String → Db → Bool
has_external_work id db =
    any (λ j. j.task_id == id && contains j.execution_status nonterminal_compute) db.compute_jobs

-- A retry, while attempts are left.
unfoldable pub retry : String → Exec Session Unit
retry id = do
  task ← the_task id
  if ltb task.attempt_count task.max_attempts
      then transition_task id TaskStatus.ready (record task_defaults {
        expected_status = some TaskStatus.failed;
        event_type = some "TASK_RETRIED";
      })
      else pure tt

unfoldable pub fail_and_retry : String → Exec Session Unit
fail_and_retry id = do
  transition_task id TaskStatus.failed (record task_defaults {
    expected_status = some TaskStatus.running;
    event_type = some "TASK_LEASE_EXPIRED";
    payload = some (field "recovery" (str "retry_without_external_work") empty);
  })
  retry id

-- `task.lease_owner = None; task.lease_expires_at = None`; gives the Task.
unfoldable pub clear_lease : String → Exec Session Task
unfolding the_task set_task ◌>>=◌
clear_lease id = do
  task ← the_task id
  let freed = record task { lease_owner = none; lease_expires_at = none }
  set_task freed
  pure freed

-- The body of the loop of `recover_expired_leases`; every selected Task is listed.
unfoldable pub recover : String → Exec Session (Option String)
recover id = do
  busy ← select (has_external_work id)
  task ← clear_lease id
  if task.status == TaskStatus.running && not busy then fail_and_retry id else pure tt
  pure (some id)

-- `TaskReadinessService.recover_expired_leases`.
unfoldable pub recover_expired_leases : Option ℕ → Exec Session (List String)
recover_expired_leases now = do
  current ← or_utc_now now
  scan ← gets (λ s. s.env.scan)
  ids ← select (expired scan current)
  collect recover ids
