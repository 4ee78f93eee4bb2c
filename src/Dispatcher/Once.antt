-- ===== src/Dispatcher/Once.antt =====
-- A Task that was claimed bears the lease and is claimed no second time.
use semi_automated_research.Base.{
  ℕ, ◌+◌, String, ◌≡◌, refl, ap, ◌∙◌, inl, inr, Option, none, some, false, ◌==◌, Bool-cases,
  Option-cases,
}
use mathlib.Core.Path.{subst}
use semi_automated_research.Base.Time.{seconds}
use semi_automated_research.Base.Exec.{ok, pure, ◌>>=◌}
use semi_automated_research.Base.Exec.Leads.{Leads-both}
use semi_automated_research.Base.Exec.Returned.{bind_ok, Leads_ok, Keeps_ok}
use semi_automated_research.Domain.TaskStatus.{TaskStatus, task_status_eq}
use semi_automated_research.Db.Table.{find}
use semi_automated_research.Db.Models.{Task, task_row}
use semi_automated_research.Db.Session.{Session, given_or_now}
use semi_automated_research.Transitions.{TaskOptions, moved_task}
use semi_automated_research.Invariant.{IsValid}
use semi_automated_research.Invariant.Flush.{select_ok, written, written-IsValid, utc_now-IsValid}
use semi_automated_research.Invariant.Frame.{utc_now-HasTasks}
use semi_automated_research.Invariant.Moved.{IsMoved, transition_task-IsMoved, edit_task_lem}
use semi_automated_research.ProjectState.Valid.{create_compute_job-IsValid}
use semi_automated_research.Compute.Protocol.{ComputeTaskSpec, PreparedJob}
use semi_automated_research.Compute.Codec.{Codec}
use semi_automated_research.Compute.Router.{ComputeRoute}
use semi_automated_research.Dispatcher.{Lease, leased, claim_ready, claim}
use semi_automated_research.Dispatcher.Valid.{
  Holding, create_compute_job-HasTasks, lease-IsValid, claim-IsValid,
}

-- The Task runs, under the lease of the controller.
pub record IsClaimed (lease : Lease) (id : String) (s : Session) : Type 0 where
  pub task : Task
  pub found : find id s.db.tasks ≡ some task
  pub running : task.status ≡ TaskStatus.running
  pub owned : task.lease_owner ≡ some lease.controller_id
  pub asked_at : ℕ
  pub expires : task.lease_expires_at ≡ some (asked_at + seconds lease.lease_seconds)

moved_leased :
    (now expires : ℕ) (owner : String) (t : Task)
    → ((moved_task TaskStatus.running now (leased owner expires t)).lease_owner ≡ some owner)
      × ((moved_task TaskStatus.running now (leased owner expires t)).lease_expires_at
          ≡ some expires)
unfolding moved_task
moved_leased now expires owner t = (refl, refl)

module _ (lease : Lease) (id : String) where
  moved-IsClaimed :
      (options : TaskOptions) (t : Task) (now : ℕ) (s s' : Session)
      → find id s.db.tasks ≡ some (leased lease.controller_id (now + seconds lease.lease_seconds) t)
      → IsMoved id TaskStatus.running options s s'
      → IsClaimed lease id s'
  moved-IsClaimed options t now s s' there m =
      let expires = now + seconds lease.lease_seconds in
      let at = (given_or_now options.now s).0 in
      let same : m.task ≡ leased lease.controller_id expires t = cc (m.found, there) in
      let (owned, expired) = moved_leased at expires lease.controller_id t in
      let moved = ap (moved_task TaskStatus.running at) same in
      record {
        task = moved_task TaskStatus.running at m.task;
        found = m.moved;
        running = m.status;
        owned = ap (λ t. t.lease_owner) moved ∙ owned;
        asked_at = now;
        expires = ap (λ t. t.lease_expires_at) moved ∙ expired;
      }

  running_refused :
      (lease' : Lease) (codec : Codec) (spec : ComputeTaskSpec) (route : ComputeRoute)
      (prepared : PreparedJob) (correlation_id : String) (s : Session)
      → IsValid s
      → IsClaimed lease id s
      → claim lease' codec id spec route prepared correlation_id s ≡ (ok none, written s)
  unfolding claim pure ◌>>=◌
  running_refused lease' codec spec route prepared correlation_id s valid c =
      let entered = select_ok (λ db. find id db.tasks) s valid in
      let busy : (c.task.status == TaskStatus.ready) ≡ false = rw c.running refl in
      rw (entered, c.found, busy) refl

module _ (lease : Lease) (codec : Codec) (id : String) (spec : ComputeTaskSpec)
    (route : ComputeRoute) (prepared : PreparedJob) (correlation_id : String) where
  claim_ready-IsClaimed :
      (t : Task) (s s' : Session) (job : Option String)
      → IsValid s
      → find id s.db.tasks ≡ some t
      → t.status ≡ TaskStatus.ready
      → claim_ready lease codec id spec route prepared correlation_id s ≡ (ok job, s')
      → IsClaimed lease id s'
  unfolding claim_ready pure
  claim_ready-IsClaimed t s s' job valid found waiting h =
      let created = bind_ok _ _ s job s' h in
      let timed = bind_ok _ _ created.between job s' created.onward in
      let edited = bind_ok _ _ timed.between job s' timed.onward in
      let moving = bind_ok _ _ edited.between job s' edited.onward in
      let held_1 : Holding s.db.tasks created.between =
        Leads_ok _ s created.value created.between
          (Leads-both _ (create_compute_job-IsValid _) (create_compute_job-HasTasks s.db.tasks _))
          created.ran (valid, refl) in
      let held_2 : Holding s.db.tasks timed.between =
        Leads_ok _ created.between timed.value timed.between
          (Leads-both _ utc_now-IsValid (utc_now-HasTasks s.db.tasks)) timed.ran held_1 in
      let expires = timed.value + seconds lease.lease_seconds in
      let after : IsValid edited.between =
        Leads_ok _ timed.between edited.value edited.between
          (lease-IsValid s.db.tasks id lease.controller_id expires t found waiting) edited.ran
          held_2 in
      let there : find id edited.between.db.tasks ≡ some (leased lease.controller_id expires t) =
        edit_task_lem id (leased lease.controller_id expires) timed.between edited.between t
          (ap (find id) held_2.1 ∙ found) refl edited.ran in
      let end : moving.between ≡ s' = ap (λ x. x.1) moving.onward in
      subst (IsClaimed lease id) end (
        moved-IsClaimed lease id _ t timed.value edited.between moving.between there (
          transition_task-IsMoved id TaskStatus.running _ edited.between moving.between after
            moving.ran))

  claim-IsClaimed :
      (s s' : Session) (job : String)
      → IsValid s
      → claim lease codec id spec route prepared correlation_id s ≡ (ok (some job), s')
      → IsClaimed lease id s'
  unfolding claim pure ◌>>=◌
  claim-IsClaimed s s' job valid h =
      let entered = select_ok (λ db. find id db.tasks) s valid in
      elim (Option-cases (find id s.db.tasks)) [
        | inl missing ↦ absurd (cc (rw (entered, missing) at h))
        | inr (t, found) ↦ elim (Bool-cases (t.status == TaskStatus.ready)) [
          | inl waiting ↦
              claim_ready-IsClaimed t (written s) s' (some job) (written-IsValid s valid) found
                ((task_status_eq.beq_iff t.status TaskStatus.ready).0 waiting)
                (rw (entered, found, waiting) at h)
          | inr gone ↦ absurd (cc (rw (entered, found, gone) at h))
        ]
      ]

  -- Where `claim` returns a ComputeJob, from a valid session, the Task is RUNNING under the lease of the
  -- controller, which expires its length after an instant of the clock; and whoever claims the Task next,
  -- with whatever lease, route and files, is given none, and writes nothing.
  pub claim_once :
      (s s' : Session) (job : String) (lease' : Lease) (codec' : Codec) (spec' : ComputeTaskSpec)
      (route' : ComputeRoute) (prepared' : PreparedJob) (correlation_id' : String)
      → IsValid s
      → claim lease codec id spec route prepared correlation_id s ≡ (ok (some job), s')
      → IsClaimed lease id s'
        × (claim lease' codec' id spec' route' prepared' correlation_id' s' ≡ (ok none, written s'))
  claim_once s s' job lease' codec' spec' route' prepared' correlation_id' valid h =
      let claimed = claim-IsClaimed s s' job valid h in
      let after =
        Keeps_ok _ s _ s' (claim-IsValid lease codec id spec route prepared correlation_id) h
          valid in
      (
        claimed,
        running_refused lease id lease' codec' spec' route' prepared' correlation_id' s' after
            claimed,
      )
