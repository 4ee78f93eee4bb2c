-- ===== src/Samples/Accepting.antt =====
-- The theorems on accepted runs, applied to a session with a run whose three files are verified.
use mathlib.Core.Path.{subst}
use mathlib.Core.Option.{some-injective}
use semi_automated_research.Base.{
  String, ◌≡◌, refl, inl, inr, some, true, [], ◌∷◌, arith, ◌==◌, string_eq, Bool-cases,
}
use semi_automated_research.Base.Json.{pos, empty, int}
use semi_automated_research.Base.Exec.{pure, or_raise, ◌>>=◌}
use semi_automated_research.Domain.TaskStatus.{TaskStatus}
use semi_automated_research.Domain.ComputeStatus.{ComputeExecutionStatus}
use semi_automated_research.Db.Table.{find}
use semi_automated_research.Db.Models.{
  Task, ComputeJob, Artifact, task_row, project_row, compute_job_row, artifact_row,
}
use semi_automated_research.Db.Session.{Db, Session, the_task}
use semi_automated_research.Db.Session.Guard.{
  flush, select, task_audited, job_audited, artifact_kept, identity_kept, same_text,
  enforce_audited_state_changes, prevent_artifact_identity_mutation,
}
use semi_automated_research.EventLog.Sequence.{counter}
use semi_automated_research.Invariant.{IsValid, IsSoundTask, IsSoundJob, IsOwned}
use semi_automated_research.Compute.Codec.{Codec, parsed}
use semi_automated_research.Validators.Names.{required_names, add_all, add_sorted}
use semi_automated_research.Validators.Reasons.{
  ValidationResult, latest_job, job_reasons, exit_reasons, status_reasons, by_name, matching,
  name_reason, name_reasons, metrics_reasons,
}
use semi_automated_research.Validators.{
  validate_compute_task, judge, judge_latest, conclude, mark_evidence,
}
use semi_automated_research.Validators.Accepted.{IsAccepted, own_artifacts, validate_passed}
use semi_automated_research.Samples.{sample_env, project_1, task_1, job_1}
use semi_automated_research.Samples.Routing.{gpu_spec}
use semi_automated_research.Samples.Running.{log_artifact}

abbrev pub run_task : Task
run_task = record task_1 { status = TaskStatus.verifying; started_at = some 1; attempt_count = 1 }

abbrev pub run_job : ComputeJob
run_job = record job_1 {
  execution_status = ComputeExecutionStatus.succeeded;
  submitted_at = some 1;
  started_at = some 2;
  finished_at = some 3;
  exit_code = some (pos 0);
}

abbrev error_artifact : Artifact
error_artifact = record log_artifact { id = "art_2"; logical_name = "run.error" }

abbrev exit_artifact : Artifact
exit_artifact = record log_artifact { id = "art_3"; logical_name = "exit.json" }

abbrev pub run_db : Db
run_db = record {
  projects = project_1 ∷ [];
  task_dependencies = [];
  task_artifacts = [];
  tasks = run_task ∷ [];
  events = [];
  compute_jobs = run_job ∷ [];
  artifacts = log_artifact ∷ error_artifact ∷ exit_artifact ∷ [];
}

abbrev pub run_session : Session
run_session = record { env = sample_env; calls = 0; flushed = run_db; db = run_db; new_events = [] }

only_task :
    (P : Task → Type 0) (id : String) (t : Task) → P run_task → find id run_db.tasks ≡ some t → P t
unfolding find
only_task P id t one found = elim (Bool-cases ("tsk_1" == id)) [
  | inl own ↦ subst P (some-injective run_task t (rw own at found)) one
  | inr other ↦ absurd (cc (rw other at found))
]

only_job :
    (P : ComputeJob → Type 0) (id : String) (j : ComputeJob)
    → P run_job
    → find id run_db.compute_jobs ≡ some j
    → P j
unfolding find
only_job P id j one found = elim (Bool-cases ("job_1" == id)) [
  | inl own ↦ subst P (some-injective run_job j (rw own at found)) one
  | inr other ↦ absurd (cc (rw other at found))
]

pub run_session-IsValid : IsValid run_session
unfolding find counter task_audited job_audited artifact_kept identity_kept same_text
    enforce_audited_state_changes prevent_artifact_identity_mutation
run_session-IsValid = record {
  sequenced = record {
    numbered =
        λ p. elim (Bool-cases ("prj_1" == p)) [ inl own ↦ rw own refl | inr other ↦ rw other refl ];
  };
  audited = refl;
  kept = refl;
  task_keys = (refl, tt);
  job_keys = (refl, tt);
  artifact_keys = (refl, (refl, (refl, tt)));
  task_flushed = λ id gone. gone;
  job_flushed = λ id gone. gone;
  artifact_flushed = λ id gone. gone;
  task_owned = λ id t. only_task (λ t. IsOwned t.project_id run_session) id t (project_1, refl);
  job_owned = λ id j. only_job (λ j. IsOwned j.project_id run_session) id j (project_1, refl);
  task_sound = λ id t. only_task IsSoundTask id t (record {
    started = λ _. refl;
    attempted = λ _. omega arith;
    finished = λ e. absurd (ground arith);
    unowned = λ _. refl;
    unleased = λ _. refl;
  });
  job_sound = λ id j.
      only_job IsSoundJob id j
        (record { submitted = λ _. refl; started = λ _. refl; finished = λ _. refl });
}

abbrev pub codec : Codec
codec = record {
  model_validate = λ d. some (gpu_spec []);
  dump_spec = λ spec. empty;
  dump_snapshot = λ snapshot. empty;
  load = λ uri. parsed (int (pos 0));
}

abbrev verdict : ValidationResult
verdict = record { passed = true; reasons = [] }

validate_passed_example :
    (j : ComputeJob) × (latest_job "tsk_1" run_db.compute_jobs ≡ some j)
    × IsAccepted (gpu_spec []) [] j (own_artifacts run_task run_db.artifacts)
unfolding find flush select task_audited job_audited artifact_kept identity_kept same_text
    enforce_audited_state_changes prevent_artifact_identity_mutation the_task pure or_raise ◌>>=◌
    validate_compute_task judge judge_latest conclude mark_evidence required_names add_all
    add_sorted latest_job job_reasons exit_reasons status_reasons by_name matching name_reason
    name_reasons metrics_reasons
validate_passed_example =
    validate_passed codec run_task (gpu_spec []) [] "tsk_1" run_session run_session verdict
      run_session-IsValid refl refl refl refl refl
