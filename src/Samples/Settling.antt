-- ===== src/Samples/Settling.antt =====
-- The theorems on claims, polls, submissions and settled Tasks, applied to the sessions of the other
-- samples.
use semi_automated_research.Base.{◌≡◌, refl, ◌⊎◌, some, [], string_eq}
use semi_automated_research.Base.Exec.{err, pure, or_raise, value_error, ◌>>=◌}
use semi_automated_research.Domain.TaskStatus.{TaskStatus, task_status_eq}
use semi_automated_research.Db.Table.{find, store}
use semi_automated_research.Db.Models.{
  ComputeJob, task_row, project_row, compute_job_row, artifact_row,
}
use semi_automated_research.Db.Session.{
  Session, the_task, set_task, edit_task, or_utc_now, new_id, or_new_id, given_or_drawn, utc_now,
}
use semi_automated_research.Db.Session.Guard.{
  flush, select, task_audited, job_audited, artifact_kept, identity_kept, same_text,
  enforce_audited_state_changes, prevent_artifact_identity_mutation,
}
use semi_automated_research.EventLog.{append, add_event}
use semi_automated_research.Transitions.{transition_task, moved_task}
use semi_automated_research.Compute.Effects.{Providers}
use semi_automated_research.Compute.Registry
use semi_automated_research.Compute.Local.Submission.{
  Machine, submit, reserve, run_reserved, launch, confirm, reconcile_submission,
}
use semi_automated_research.World.{World, on_session, begin}
use semi_automated_research.Validators.Names.{required_names, add_all, add_sorted}
use semi_automated_research.Validators.Reasons.{
  latest_job, job_reasons, exit_reasons, status_reasons, by_name, matching, name_reason,
  name_reasons, metrics_reasons,
}
use semi_automated_research.Validators.{
  validate_compute_task, judge, judge_latest, conclude, mark_evidence,
}
use semi_automated_research.Validators.Accepted.{IsAccepted, own_artifacts}
use semi_automated_research.Reconciler.{after_poll, submit_created}
use semi_automated_research.Reconciler.Records.{mark_submitted}
use semi_automated_research.Reconciler.Quiet.{status_of, after_poll_quiet}
use semi_automated_research.Reconciler.Resume.{submit_created_resumes}
use semi_automated_research.Controller.{settle, verify_one}
use semi_automated_research.Controller.Settled.{Stands, verify_one_sound}
use semi_automated_research.Samples.Submitting
use semi_automated_research.Samples.Submitting.{host, job, finished}
use semi_automated_research.Samples.Routing.{gpu_spec, machines, machine}
use semi_automated_research.Samples.Running.{providers, world, view}
use semi_automated_research.Samples.Accepting.{
  run_task, run_db, run_session, run_session-IsValid, codec,
}

abbrev settled : Session
settled = (verify_one (λ code. "?") codec "tsk_1" run_session).1

verify_one_sound_example :
    (Stands "tsk_1" TaskStatus.succeeded settled
      × ((j : ComputeJob) × (latest_job "tsk_1" run_db.compute_jobs ≡ some j)
          × IsAccepted (gpu_spec []) [] j (own_artifacts run_task run_db.artifacts)))
    ⊎ Stands "tsk_1" TaskStatus.failed settled
unfolding find store flush select task_audited job_audited artifact_kept identity_kept same_text
    enforce_audited_state_changes prevent_artifact_identity_mutation the_task set_task edit_task
    pure or_raise ◌>>=◌ new_id or_new_id given_or_drawn utc_now or_utc_now append add_event
    transition_task moved_task validate_compute_task judge judge_latest conclude mark_evidence
    required_names add_all add_sorted latest_job job_reasons exit_reasons status_reasons by_name
    matching name_reason name_reasons metrics_reasons settle verify_one
verify_one_sound_example =
    verify_one_sound (λ code. "?") codec run_task (gpu_spec []) [] "tsk_1" run_session settled
      (some "tsk_1") run_session-IsValid refl refl refl refl

after_poll_quiet_example :
    status_of "job_1" (after_poll providers 100000 7 view (err value_error) world).1.session.db
    ≡ status_of "job_1" world.session.db
after_poll_quiet_example =
    after_poll_quiet providers 100000 7 view (err value_error) world "job_1" tt

-- The operations of LocalProvider on submissions; the others are not asked.
abbrev locals : Providers Machine
locals = record {
  registry = λ m. machines;
  ops = λ id. record {
    prepare = λ spec resource_class. pure job;
    submit = submit host;
    reconcile_submission = reconcile_submission host;
    poll = λ view m. (err value_error, m);
    collect = λ view. pure [];
  };
}

abbrev relaunched : World Machine
relaunched = record {
  session = run_session;
  files = record { tree = []; copies = 0 };
  outside = finished;
}

submit_created_resumes_example :
    (submit_created locals (view, gpu_spec []) relaunched
      ≡ begin (on_session (mark_submitted "job_1" "local-0")) relaunched)
    × ((submit_created locals (view, gpu_spec []) relaunched).1.outside ≡ finished)
unfolding submit reserve run_reserved launch confirm ◌>>=◌ Registry.get
submit_created_resumes_example =
    submit_created_resumes host locals job view (gpu_spec []) Submitting.machine relaunched
      "local-0" machine (λ m. refl) refl refl refl
