-- ===== src/Controller/Settled.antt =====
-- What `verify_completed_work` makes of one Task.
use semi_automated_research.Base.{
  String, ◌≡◌, ap, ◌⊎◌, inl, inr, Option, some, true, List, string_eq, Bool-cases,
}
use mathlib.Core.Path.{subst}
use semi_automated_research.Base.Json.{ℤ, get}
use semi_automated_research.Base.Exec.{ok, pure}
use semi_automated_research.Base.Exec.Returned.{bind_ok, Keeps_ok}
use semi_automated_research.Domain.TaskStatus.{TaskStatus}
use semi_automated_research.Db.Table.{find}
use semi_automated_research.Db.Models.{Task, ComputeJob, task_row}
use semi_automated_research.Db.Session.{Session}
use semi_automated_research.Db.Session.{given_or_now}
use semi_automated_research.Transitions.{TaskOptions, moved_task, transition_task}
use semi_automated_research.Invariant.{IsValid}
use semi_automated_research.Invariant.Edits.{edit_task-IsValid}
use semi_automated_research.Invariant.Moved.{transition_task-IsMoved}
use semi_automated_research.Compute.Protocol.{ComputeTaskSpec}
use semi_automated_research.Compute.Codec.{Codec}
use semi_automated_research.Validators.Names.{required_of}
use semi_automated_research.Validators.Reasons.{ValidationResult, latest_job}
use semi_automated_research.Validators.Valid.{validate_compute_task-IsValid}
use semi_automated_research.Validators.Accepted.{IsAccepted, own_artifacts, validate_passed}
use semi_automated_research.Controller.{settle, verify_one}
use semi_automated_research.Controller.Valid.{summed_up-IsQuietTask, explained-IsQuietTask}

-- The Task is there with the status.
abbrev pub Stands : String → TaskStatus → Session → Type 0
Stands id status s = (t : Task) × (find id s.db.tasks ≡ some t) × (t.status ≡ status)

module _ (id : String) (options : TaskOptions) (s s' : Session) where
  transition-Stands :
      (to : TaskStatus)
      → IsValid s
      → transition_task id to options s ≡ (ok tt, s')
      → Stands id to s'
  transition-Stands to valid h =
      let m = transition_task-IsMoved id to options s s' valid h in
      (moved_task to (given_or_now options.now s).0 m.task, m.moved, m.status)

module _ (repr : Option ℤ → String) (id : String) where
  -- What `settle` leaves: SUCCEEDED if the validation passed, and else FAILED.
  settle-Stands :
      (v : ValidationResult) (s s' : Session)
      → IsValid s
      → settle repr id v s ≡ (ok tt, s')
      → ((v.passed ≡ true) × Stands id TaskStatus.succeeded s') ⊎ Stands id TaskStatus.failed s'
  unfolding settle
  settle-Stands v s s' valid h = elim (Bool-cases v.passed) [
    | inl passed ↦
        inl (passed, transition-Stands id _ s s' TaskStatus.succeeded valid (rw passed at h))
    | inr failed ↦
        let steps = bind_ok _ _ s tt s' (rw failed at h) in
        let after =
          Keeps_ok _ s _ _ (edit_task-IsValid id _ (explained-IsQuietTask repr v)) steps.ran
            valid in
        inr (transition-Stands id _ steps.between s' TaskStatus.failed after steps.onward)
  ]

module _ (repr : Option ℤ → String) (codec : Codec) (task : Task) (spec : ComputeTaskSpec)
    (policy : List String) where
  -- In a valid session, where the Task's spec and policy are read: where `verify_completed_work` has
  -- settled the Task, it is FAILED, or it is SUCCEEDED and then its latest ComputeJob SUCCEEDED, with exit
  -- code 0 if the spec asks for it, and every required name is that of a VERIFIED Artifact of the Task.
  pub verify_one_sound :
      (id : String) (s s' : Session) (listed : Option String)
      → IsValid s
      → find id s.db.tasks ≡ some task
      → codec.model_validate task.spec_json ≡ some spec
      → required_of (get "required_artifacts" task.acceptance_policy_json) ≡ some policy
      → verify_one repr codec id s ≡ (ok listed, s')
      → (Stands id TaskStatus.succeeded s'
          × ((job : ComputeJob) × (latest_job task.id s.db.compute_jobs ≡ some job)
              × IsAccepted spec policy job (own_artifacts task s.db.artifacts)))
        ⊎ Stands id TaskStatus.failed s'
  unfolding verify_one pure
  verify_one_sound id s s' listed valid found read named h =
      let judged = bind_ok _ _ s listed s' h in
      let written = bind_ok _ _ judged.between listed s' judged.onward in
      let settled = bind_ok _ _ written.between listed s' written.onward in
      let after =
        Keeps_ok _ s judged.value judged.between (validate_compute_task-IsValid codec id) judged.ran
          valid in
      let later =
        Keeps_ok _ judged.between written.value written.between
          (edit_task-IsValid id _ (summed_up-IsQuietTask repr judged.value)) written.ran after in
      let end : settled.between ≡ s' = ap (λ x. x.1) settled.onward in
      elim (settle-Stands repr id judged.value written.between settled.between later settled.ran) [
        | inl (passed, stands) ↦ inl (
          subst (Stands id TaskStatus.succeeded) end stands,
          validate_passed codec task spec policy id s judged.between judged.value valid found read
              named judged.ran passed,
        )
        | inr stands ↦ inr (subst (Stands id TaskStatus.failed) end stands)
      ]
