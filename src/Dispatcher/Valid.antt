-- ===== src/Dispatcher/Valid.antt =====
-- `ComputeDispatcher.dispatch_ready` keeps the session valid, whatever the providers do.
use semi_automated_research.Base.{
  ℕ, String, ◌≡◌, refl, ap, ◌∙◌, inl, inr, Option, none, some, List, ◌==◌, Bool-cases, Option-cases,
}
use semi_automated_research.Base.Exec.{Exec, pure, ◌>>=◌, ◌>>◌}
use semi_automated_research.Base.Exec.Keeps.{Keeps, keeps_rules}
use semi_automated_research.Base.Exec.Leads.{Leads, Leads-bind, Leads-both}
use semi_automated_research.Domain.TaskStatus.{TaskStatus, task_status_eq}
use semi_automated_research.Db.Table.{find, find_self}
use semi_automated_research.Db.Models.{Task, task_row}
use semi_automated_research.Db.Session.{Session, edit_task}
use semi_automated_research.Invariant.{IsValid, IsSoundTask}
use semi_automated_research.Invariant.Writes.{task_kept-IsValid}
use semi_automated_research.Invariant.Flush.{select_ok, written, written-IsValid, utc_now-IsValid}
use semi_automated_research.Invariant.Frame.{
  HasTasks, flush-HasTasks, select-HasTasks, new_id-HasTasks, utc_now-HasTasks, the_task-HasTasks,
  insert_job-HasTasks, append-HasTasks,
}
use semi_automated_research.Transitions.{task_defaults, transition_task}
use semi_automated_research.Invariant.Transitions.{transition_task-IsValid}
use semi_automated_research.ProjectState.{create_compute_job, insert_job, or_insert}
use semi_automated_research.ProjectState.Rows.{JobArgs}
use semi_automated_research.ProjectState.Valid.{create_compute_job-IsValid}
use semi_automated_research.Compute.Protocol.{ComputeTaskSpec, PreparedJob}
use semi_automated_research.Compute.Codec.{Codec}
use semi_automated_research.Compute.Router.{ComputeRoute}
use semi_automated_research.Dispatcher.{
  Lease, leased, claim_ready, claim, dispatch_spec, dispatch_one, dispatch_ready,
}
use semi_automated_research.Compute.Effects.{Providers}
use semi_automated_research.World.Always.{Always, HasValid, always_rules}

insert_job-Tasks :
    (ts : List Task) (a : JobArgs) (task : Task) → Keeps (HasTasks ts) (insert_job a task)
unfolding insert_job
insert_job-Tasks ts a task =
    search
      (
        keeps_rules, new_id-HasTasks, utc_now-HasTasks, insert_job-HasTasks, flush-HasTasks,
        append-HasTasks,
      )
      depth 14

or_insert_job-Tasks :
    {A : Type 0} (ts : List Task) (o : Option A) (id : A → String) (m : Exec Session String)
    → Keeps (HasTasks ts) m
    → Keeps (HasTasks ts) (or_insert o id m)
or_insert_job-Tasks ts none id m k = k
or_insert_job-Tasks ts (some a) id m k = search keeps_rules

-- `create_compute_job` leaves the Tasks as they are.
pub create_compute_job-HasTasks :
    (ts : List Task) (a : JobArgs) → Keeps (HasTasks ts) (create_compute_job a)
unfolding create_compute_job
create_compute_job-HasTasks ts a =
    search (keeps_rules, select-HasTasks, the_task-HasTasks, or_insert_job-Tasks, insert_job-Tasks)
      depth 12

-- The session is valid, and its Tasks are `ts`.
abbrev pub Holding : List Task → Session → Type 0
Holding ts s = IsValid s × HasTasks ts s

leased-IsSoundTask :
    (owner : String) (expires : ℕ) (t : Task)
    → t.status ≡ TaskStatus.ready
    → IsSoundTask t
    → IsSoundTask (leased owner expires t)
leased-IsSoundTask owner expires t waiting h = record {
  started = h.started;
  attempted = h.attempted;
  finished = h.finished;
  unowned = λ e. cc (rw waiting at e);
  unleased = λ e. cc (rw waiting at e);
}

pub lease-IsValid :
    (ts : List Task) (id owner : String) (expires : ℕ) (t : Task)
    → find id ts ≡ some t
    → t.status ≡ TaskStatus.ready
    → Leads (Holding ts) IsValid (edit_task id (leased owner expires))
unfolding edit_task ◌>>=◌
lease-IsValid ts id owner expires t found waiting = record {
  at = λ s h.
      let there = ap (find id) h.1 ∙ found in
      rw there (
        task_kept-IsValid s (leased owner expires t) t s.calls h.0 (find_self id s.db.tasks t there)
          refl (leased-IsSoundTask owner expires t waiting (h.0.task_sound id t there)) refl);
}

module _ (lease : Lease) (codec : Codec) (id : String) (spec : ComputeTaskSpec)
    (route : ComputeRoute) (prepared : PreparedJob) (correlation_id : String) where
  claim_ready-IsValid :
      (ts : List Task) (t : Task)
      → find id ts ≡ some t
      → t.status ≡ TaskStatus.ready
      → Leads (Holding ts) IsValid (claim_ready lease codec id spec route prepared correlation_id)
  unfolding claim_ready
  claim_ready-IsValid ts t found waiting =
      Leads-bind _ _
        (Leads-both _ (create_compute_job-IsValid _) (create_compute_job-HasTasks ts _))
        λ job. Leads-bind _ _ (Leads-both _ utc_now-IsValid (utc_now-HasTasks ts)) λ now.
          Leads-bind _ _ (lease-IsValid ts id lease.controller_id _ t found waiting)
            λ u. record { at = λ s h. (rest job).at s h }
    where
      rest :
          (job : String)
          → Keeps IsValid (do
            transition_task id TaskStatus.running (record task_defaults {
              expected_status = some TaskStatus.ready;
              correlation_id = some correlation_id;
            })
            pure (some job))
      rest job = search (keeps_rules, transition_task-IsValid)

  pub claim-IsValid : Keeps IsValid (claim lease codec id spec route prepared correlation_id)
  unfolding claim pure ◌>>=◌
  claim-IsValid = record {
    at = λ s h.
        let entered = select_ok (λ db. find id db.tasks) s h in
        elim (Option-cases (find id s.db.tasks)) [
          | inl missing ↦ rw (entered, missing) (written-IsValid s h)
          | inr (t, found) ↦ elim (Bool-cases (t.status == TaskStatus.ready)) [
            | inl waiting ↦
                rw (entered, found, waiting)
                  ((claim_ready-IsValid s.db.tasks t found
                      ((task_status_eq.beq_iff t.status TaskStatus.ready).0 waiting)).at
                    (written s) (written-IsValid s h, refl))
            | inr gone ↦ rw (entered, found, gone) (written-IsValid s h)
          ]
        ];
  }

module _ {W : Type 0} (providers : Providers W) (lease : Lease) (codec : Codec) where
  dispatch_spec-HasValid :
      (id : String) (o : Option (Option ComputeTaskSpec))
      → Always (HasValid {W = W}) (dispatch_spec providers lease codec id o)
  unfolding dispatch_spec
  dispatch_spec-HasValid id none = search always_rules
  dispatch_spec-HasValid id (some validated) = search (always_rules, claim-IsValid) depth 14

  dispatch_one-HasValid :
      (id : String) → Always (HasValid {W = W}) (dispatch_one providers lease codec id)
  unfolding dispatch_one
  dispatch_one-HasValid id = search (always_rules, dispatch_spec-HasValid)

  pub dispatch_ready-HasValid : Always (HasValid {W = W}) (dispatch_ready providers lease codec)
  unfolding dispatch_ready
  dispatch_ready-HasValid = search (always_rules, dispatch_one-HasValid)
