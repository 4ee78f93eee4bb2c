-- ===== src/Controller.antt =====
-- controller.py: `ResearchController`, whose tick runs the services in their order and whose loop ticks
-- until no Task is open.
pub mod Valid
pub mod Idle
pub mod Settled
use semi_automated_research.Base.{
  ℕ, ◌+◌, zero, suc, String, Option, none, some, Bool, true, false, ◌&&◌, ◌||◌, List, [], ◌∷◌, map,
  ◌==◌, contains, any, length, ltb, f_string, where_rows, if◌then◌else◌,
}
use semi_automated_research.Base.Json.{
  ℤ, Json, Items, Fields, bool, str, arr, nil, cons, empty, field,
}
use semi_automated_research.Base.Exec.{
  Result, Exec, ok, err, pure, raise, collect, timeout_error, ◌>>=◌, ◌>>◌,
}
use semi_automated_research.Domain.TaskStatus.{TaskStatus, task_status_eq}
use semi_automated_research.Domain.Project.{TaskExecutor, task_executor_eq}
use semi_automated_research.Db.Models.{Task}
use semi_automated_research.Db.Session.{Db, Session, edit_task}
use semi_automated_research.Db.Session.Guard.{select}
use semi_automated_research.Transitions.{task_defaults, transition_task}
use semi_automated_research.Readiness
use semi_automated_research.Compute.Codec.{Codec}
use semi_automated_research.Compute.Effects.{Providers}
use semi_automated_research.Artifacts.{Storage}
use semi_automated_research.Validators.Reasons.{ValidationResult, reason_text}
use semi_automated_research.Validators.{validate_compute_task}
use semi_automated_research.Dispatcher.{Lease, dispatch_ready}
use semi_automated_research.Reconciler.{reconcile_created, reconcile_due}
use semi_automated_research.World.{World, on_session, look, begin}

abbrev texts : List String → Items
texts [] = nil
texts (s ∷ ss) = cons (str s) (texts ss)

-- `"; ".join(reasons)`.
abbrev joined : List String → String
joined [] = ""
joined (s ∷ []) = s
joined (s ∷ t ∷ ss) = f_string (s ∷ "; " ∷ joined (t ∷ ss) ∷ [])

module _ (repr : Option ℤ → String) where
  abbrev pub summary : ValidationResult → Fields
  summary v =
      field "validation_passed" (bool v.passed)
        (field "reasons" (arr (texts (map (reason_text repr) v.reasons))) empty)

  abbrev pub summed_up : ValidationResult → Task → Task
  summed_up v t = record t { result_summary_json = summary v }

  abbrev pub explained : ValidationResult → Task → Task
  explained v t = record t { error_summary = some (joined (map (reason_text repr) v.reasons)) }

  -- What follows the validation of a Task.
  unfoldable pub settle : String → ValidationResult → Exec Session (Unit {0})
  settle id v =
      if v.passed
      then transition_task id TaskStatus.succeeded
          (record task_defaults { expected_status = some TaskStatus.verifying })
      else (do
        edit_task id (explained v)
        transition_task id TaskStatus.failed (record task_defaults {
          expected_status = some TaskStatus.verifying;
          payload =
              some
                (field "validation_reasons" (arr (texts (map (reason_text repr) v.reasons))) empty);
        }))

  -- One round of the loop of `verify_completed_work`; every Task of the query is listed.
  unfoldable pub verify_one : Codec → String → Exec Session (Option String)
  verify_one codec id = do
    result ← validate_compute_task codec id
    edit_task id (summed_up result)
    settle id result
    pure (some id)

  abbrev pub is_verifying : Task → Bool
  is_verifying t = t.status == TaskStatus.verifying && t.executor == TaskExecutor.compute

  -- `verify_completed_work`, in its one transaction.
  unfoldable pub verify_completed_work : Codec → Exec Session (List String)
  verify_completed_work codec = do
    ids ← select (λ db. map (λ t. t.id) (where_rows is_verifying db.tasks))
    collect (verify_one codec) ids

-- `TickResult`.
pub record TickResult : Type 0 where
  pub observed_jobs : ℕ
  pub recovered_tasks : ℕ
  pub reconciled_submissions : ℕ
  pub readied_tasks : ℕ
  pub verified_tasks : ℕ
  pub dispatched_jobs : ℕ

-- What a controller is made with; the interval between two polls is in microseconds.
pub record Settings : Type 0 where
  pub lease : Lease
  pub storage : Storage
  pub codec : Codec
  pub poll_interval : ℕ
  pub repr : Option ℤ → String

-- How the loop of `run_until_idle` ends: by its return, or by a round that the fuel does not reach.
pub data Ending : Type 0 where
  returned : Ending
  out_of_fuel : Ending

abbrev pub is_open : Task → Bool
is_open t =
    contains t.status
      (TaskStatus.pending ∷ TaskStatus.ready ∷ TaskStatus.running ∷ TaskStatus.verifying ∷ [])

module _ {W : Type 0} (providers : Providers W) (settings : Settings) where
  -- `tick`.
  unfoldable pub tick : Exec (World W) TickResult
  tick = do
    observed ← reconcile_due providers settings.storage settings.poll_interval
    recovered ← begin (on_session (Readiness.recover_expired_leases none))
    reconciled ← reconcile_created providers settings.codec
    readied ← begin (on_session (Readiness.reconcile none))
    verified ← begin (on_session (verify_completed_work settings.repr settings.codec))
    dispatched ← dispatch_ready providers settings.lease settings.codec
    pure (record {
      observed_jobs = length observed;
      recovered_tasks = length recovered;
      reconciled_submissions = length reconciled;
      readied_tasks = length readied;
      verified_tasks = length verified;
      dispatched_jobs = length dispatched;
    })

  -- `while loop.time() < deadline`; `time n` is what the clock of the event loop says at the start of
  -- round `n`.
  unfoldable pub idle_loop : (ℕ → ℕ) → ℕ → ℕ → ℕ → Exec (World W) Ending
  idle_loop time deadline n zero = pure out_of_fuel
  idle_loop time deadline n (suc fuel) =
      let rest = idle_loop time deadline (n + 1) fuel in
      if ltb (time n) deadline
      then (do
        tick
        remaining ← look (λ db. any is_open db.tasks)
        if remaining then rest else pure returned)
      else raise timeout_error

  -- `run_until_idle`.
  unfoldable pub run_until_idle : (ℕ → ℕ) → ℕ → ℕ → Exec (World W) Ending
  run_until_idle time timeout fuel = idle_loop time (time 0 + timeout) 0 fuel
