-- ===== src/Dispatcher.antt =====
-- services/dispatcher.py: `ComputeDispatcher.dispatch_ready`, which claims READY Tasks with a lease and
-- makes their ComputeJobs.
pub mod Valid
pub mod Once
use semi_automated_research.Base.{
  ℕ, ◌+◌, String, Option, none, some, Bool, true, false, not, ◌&&◌, ◌||◌, List, [], ◌∷◌, map, ◌==◌,
  string_eq, ltb, leb, where_rows, if◌then◌else◌,
}
use semi_automated_research.Base.Time.{seconds}
use semi_automated_research.Base.Json.{ℤ, pos, negsuc}
use semi_automated_research.Base.Exec.{Exec, pure, or_raise, collect, value_error, ◌>>=◌, ◌>>◌}
use semi_automated_research.Domain.TaskStatus.{TaskStatus, task_status_eq}
use semi_automated_research.Domain.Project.{
  ProjectLifecycle, TaskExecutor, project_lifecycle_eq, task_executor_eq,
}
use semi_automated_research.Db.Table.{find}
use semi_automated_research.Db.Models.{Project, Task, project_row, task_row}
use semi_automated_research.Db.Session.{Db, Session, new_id, utc_now, edit_task}
use semi_automated_research.Db.Session.Guard.{select}
use semi_automated_research.Transitions.{task_defaults, transition_task}
use semi_automated_research.ProjectState.{create_compute_job}
use semi_automated_research.Compute.Protocol.{ComputeTaskSpec, PreparedJob}
use semi_automated_research.Compute.Codec.{Codec}
use semi_automated_research.Compute.Router.{ComputeRoute}
use semi_automated_research.Compute.Effects
use semi_automated_research.Compute.Effects.{Providers}
use semi_automated_research.World.{World, on_session, on_outside, look, begin}

abbrev pub is_ready : Option Task → Bool
is_ready none = false
is_ready (some t) = t.status == TaskStatus.ready

abbrev is_active : Option Project → Bool
is_active none = false
is_active (some p) = p.lifecycle == ProjectLifecycle.active

-- The WHERE clause, over the join with the Task's Project.
abbrev pub is_dispatchable : Db → Task → Bool
is_dispatchable db t =
    t.status == TaskStatus.ready
    && (t.executor == TaskExecutor.compute && is_active (find t.project_id db.projects))

abbrev ltb_ℤ : ℤ → ℤ → Bool
ltb_ℤ (pos a) (pos b) = ltb a b
ltb_ℤ (pos a) (negsuc b) = false
ltb_ℤ (negsuc a) (pos b) = true
ltb_ℤ (negsuc a) (negsuc b) = ltb b a

-- `ORDER BY priority DESC, created_at`: `t` has to stand before `u`.
abbrev pub precedes : Task → Task → Bool
precedes t u =
    ltb_ℤ u.priority t.priority
    || (not (ltb_ℤ t.priority u.priority) && ltb t.created_at u.created_at)

unfoldable pub insert_task : Task → List Task → List Task
insert_task t [] = t ∷ []
insert_task t (u ∷ us) =
    let rest = insert_task t us in if precedes u t then u ∷ rest else t ∷ u ∷ us

-- The rows in that order; rows that it does not tell apart stay in the order of the table.
unfoldable pub in_order : List Task → List Task
unfolding insert_task
in_order [] = []
in_order (t ∷ ts) = let rest = in_order ts in insert_task t rest

unfoldable pub ready_ids : Db → List String
ready_ids db = map (λ t. t.id) (in_order (where_rows (is_dispatchable db) db.tasks))

pub record Lease : Type 0 where
  pub controller_id : String
  pub lease_seconds : ℕ

abbrev pub leased : String → ℕ → Task → Task
leased owner expires t = record t { lease_owner = some owner; lease_expires_at = some expires }

module _ (lease : Lease) (codec : Codec) (id : String) where
  -- The transaction past the test that the Task is still READY.
  unfoldable pub claim_ready :
      ComputeTaskSpec → ComputeRoute → PreparedJob → String → Exec Session (Option String)
  claim_ready spec route prepared correlation_id = do
    job ← create_compute_job (record {
      task_id = id;
      provider_id = route.provider_id;
      resource_class = route.resource_class;
      submission_key = spec.submission_key;
      remote_workdir = prepared.workdir;
      spec = codec.dump_spec spec;
      resource_snapshot = codec.dump_snapshot route.snapshot;
      correlation_id = correlation_id;
    })
    now ← utc_now
    edit_task id (leased lease.controller_id (now + seconds lease.lease_seconds))
    transition_task id TaskStatus.running (record task_defaults {
      expected_status = some TaskStatus.ready;
      correlation_id = some correlation_id;
    })
    pure (some job)

  -- The transaction that claims the Task; `none` where it is no longer READY.
  unfoldable pub claim :
      ComputeTaskSpec → ComputeRoute → PreparedJob → String → Exec Session (Option String)
  claim spec route prepared correlation_id = do
    found ← select (λ db. find id db.tasks)
    if is_ready found then claim_ready spec route prepared correlation_id else pure none

module _ {W : Type 0} (providers : Providers W) (lease : Lease) (codec : Codec) where
  -- The specification of the Task, if it is READY.
  abbrev pub ready_spec : Option Task → Option (Option ComputeTaskSpec)
  ready_spec none = none
  ready_spec (some t) = if is_ready (some t) then some (codec.model_validate t.spec_json) else none

  unfoldable pub dispatch_spec :
      String → Option (Option ComputeTaskSpec) → Exec (World W) (Option String)
  dispatch_spec id none = pure none
  dispatch_spec id (some validated) = do
    spec ← or_raise validated value_error
    route ← on_outside (Effects.route providers spec)
    on_outside (Effects.get providers route.provider_id)
    prepared ← on_outside ((providers.ops route.provider_id).prepare spec route.resource_class)
    correlation_id ← on_session (new_id "corr")
    begin (on_session (claim lease codec id spec route prepared correlation_id))

  -- One round of the loop; the id of the ComputeJob is listed if the Task was claimed.
  unfoldable pub dispatch_one : String → Exec (World W) (Option String)
  dispatch_one id = do found ← look (λ db. find id db.tasks); dispatch_spec id (ready_spec found)

  -- `ComputeDispatcher.dispatch_ready`.
  unfoldable pub dispatch_ready : Exec (World W) (List String)
  dispatch_ready = do ids ← look ready_ids; collect dispatch_one ids
