-- ===== src/Samples/Claiming.antt =====
-- The theorem on claims, applied to a Task that `reconcile` has made READY.
use semi_automated_research.Base.{◌≡◌, refl, none, some, [], ◌∷◌, string_eq}
use semi_automated_research.Base.Exec.{ok, pure, collect, write_unless, ◌>>=◌}
use semi_automated_research.Base.Exec.Returned.{Keeps_ok}
use semi_automated_research.Domain.TaskStatus.{task_status_eq}
use semi_automated_research.Db.Table.{find, store}
use semi_automated_research.Db.Models.{task_row, project_row, compute_job_row, artifact_row}
use semi_automated_research.Db.Session.{
  Session, the_task, set_task, edit_task, or_utc_now, new_id, or_new_id, given_or_drawn, utc_now,
}
use semi_automated_research.Db.Session.Guard.{
  flush, select, task_audited, job_audited, enforce_audited_state_changes,
  prevent_artifact_identity_mutation,
}
use semi_automated_research.EventLog.{append, add_event}
use semi_automated_research.Transitions.{transition_task, moved_task}
use semi_automated_research.Readiness.{
  reconcile, candidates, ready_if_satisfied, dependency_states, statuses_of,
}
use semi_automated_research.Readiness.Valid.{reconcile-IsValid}
use semi_automated_research.ProjectState.{create_compute_job, insert_job}
use semi_automated_research.ProjectState.Rows.{with_submission_key, job_clash}
use semi_automated_research.Invariant.{IsValid}
use semi_automated_research.Invariant.Flush.{written}
use semi_automated_research.Dispatcher.{Lease, claim, claim_ready}
use semi_automated_research.Dispatcher.Once.{IsClaimed, claim_once}
use semi_automated_research.Samples.Linked.{linked, linked-IsValid}
use semi_automated_research.Samples.Submitting.{job}
use semi_automated_research.Samples.Routing.{gpu_spec, gpu_route}
use semi_automated_research.Samples.Accepting.{codec}

abbrev ready : Session
ready = (reconcile (some 99) linked).1

ready-IsValid : IsValid ready
unfolding ◌>>=◌ pure collect new_id or_new_id given_or_drawn utc_now or_utc_now append add_event
    find store flush select enforce_audited_state_changes prevent_artifact_identity_mutation
    transition_task moved_task the_task set_task task_audited reconcile candidates
    ready_if_satisfied dependency_states statuses_of
ready-IsValid =
    Keeps_ok (reconcile (some 99)) linked ("tsk_2" ∷ []) ready (reconcile-IsValid (some 99)) refl
      linked-IsValid

abbrev pub lease : Lease
lease = record { controller_id = "controller_1"; lease_seconds = 60 }

abbrev other_lease : Lease
other_lease = record { controller_id = "controller_2"; lease_seconds = 60 }

abbrev claimed : Session
claimed = (claim lease codec "tsk_2" (gpu_spec []) gpu_route job "corr_1" ready).1

claim_once_example :
    IsClaimed lease "tsk_2" claimed
    × (claim other_lease codec "tsk_2" (gpu_spec []) gpu_route job "corr_2" claimed
        ≡ (ok none, written claimed))
unfolding ◌>>=◌ pure collect new_id or_new_id given_or_drawn utc_now or_utc_now append add_event
    find store flush select enforce_audited_state_changes prevent_artifact_identity_mutation
    transition_task moved_task the_task set_task edit_task task_audited job_audited reconcile
    candidates ready_if_satisfied dependency_states statuses_of claim claim_ready create_compute_job
    insert_job with_submission_key write_unless job_clash
claim_once_example =
    claim_once lease codec "tsk_2" (gpu_spec []) gpu_route job "corr_1" ready claimed "job_11110"
      other_lease codec (gpu_spec []) gpu_route job "corr_2" ready-IsValid refl
