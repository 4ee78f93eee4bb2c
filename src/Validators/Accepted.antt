-- ===== src/Validators/Accepted.antt =====
-- What a run that `validate_compute_task` passes has shown.
use mathlib.Core.Path.{subst}
use semi_automated_research.Base.{
  String, ◌≡◌, refl, sym, ◌∙◌, Option, none, some, Bool, true, ◌||◌, List, [], ◌∷◌, ◌++◌, arith,
  string_eq, contains, where_rows,
}
use semi_automated_research.Base.Json.{get}
use semi_automated_research.Base.Exec.Returned.{bind_ok, or_raise_ok}
use semi_automated_research.Base.Exec.{ok, pure, ◌>>=◌}
use semi_automated_research.Domain.ComputeStatus.{
  ComputeExecutionStatus, compute_execution_status_eq,
}
use semi_automated_research.Domain.Resource.{artifact_integrity_status_eq}
use semi_automated_research.Db.Table.{find}
use semi_automated_research.Db.Models.{Task, ComputeJob, Artifact, task_row}
use semi_automated_research.Db.Session.{Session, the_task}
use semi_automated_research.Invariant.{IsValid}
use semi_automated_research.Invariant.Flush.{written, written-IsValid, select_ok}
use semi_automated_research.Compute.Protocol.{ComputeTaskSpec}
use semi_automated_research.Compute.Codec.{Codec}
use semi_automated_research.Validators.Names.{required_of, required_names, add_all, output_names}
use semi_automated_research.Validators.Reasons.{
  Reason, ValidationResult, latest_job, job_reasons, exit_reasons, status_reasons, is_zero, by_name,
  name_reasons,
}
use semi_automated_research.Validators.{
  is_empty, is_of, conclude, judge, judge_latest, validate_compute_task,
}
use semi_automated_research.Validators.Shown.{
  IsShown, is_empty-append, name_reasons-IsShown, contains-add_all,
}

-- The names of the files of a run, of the required outputs, and of the policy.
abbrev is_required : ComputeTaskSpec → List String → String → Bool
is_required spec policy name =
    contains name ("run.out" ∷ "run.error" ∷ "exit.json" ∷ [])
    || (contains name (output_names (λ o. o.required) spec.outputs) || contains name policy)

contains-required_names :
    (spec : ComputeTaskSpec) (policy : List String) (name : String)
    → contains name (required_names spec policy) ≡ is_required spec policy name
unfolding required_names
contains-required_names spec policy name =
    let outputs = output_names (λ o. o.required) spec.outputs in
    let inner = contains-add_all name policy [] in
    let middle = contains-add_all name outputs (add_all policy []) in
    let outer =
      contains-add_all name ("run.out" ∷ "run.error" ∷ "exit.json" ∷ [])
        (add_all outputs (add_all policy [])) in
    rw (outer, middle, inner) (ground arith)

status_reasons-empty :
    (job : ComputeJob)
    → is_empty (status_reasons job) ≡ true
    → job.execution_status ≡ ComputeExecutionStatus.succeeded
unfolding status_reasons
status_reasons-empty job h =
    (compute_execution_status_eq.beq_iff job.execution_status ComputeExecutionStatus.succeeded).0
      (ground arith)

exit_reasons-empty :
    (spec : ComputeTaskSpec) (job : ComputeJob)
    → is_empty (exit_reasons spec job) ≡ true
    → spec.success.require_zero_exit_code ≡ true
    → is_zero job.exit_code ≡ true
unfolding exit_reasons
exit_reasons-empty spec job h required = ground arith

conclude-passed :
    (spec : ComputeTaskSpec) (artifacts : List Artifact) (reasons : List Reason) (s s' : Session)
    (v : ValidationResult)
    → conclude spec artifacts reasons s ≡ (ok v, s')
    → v.passed ≡ true
    → is_empty reasons ≡ true
unfolding conclude pure
conclude-passed spec artifacts reasons s s' v h passed =
    let marked = bind_ok _ _ s v s' h in let given = marked.onward in cc

-- What a passed validation shows of a run: it SUCCEEDED, with exit code 0 where that is asked for, and
-- a verified Artifact of the Task stands for every required name.
pub record IsAccepted (spec : ComputeTaskSpec) (policy : List String) (job : ComputeJob)
    (artifacts : List Artifact) : Type 0 where
  pub succeeded : job.execution_status ≡ ComputeExecutionStatus.succeeded
  pub zero_exit : spec.success.require_zero_exit_code ≡ true → is_zero job.exit_code ≡ true
  pub shown : (name : String) → is_required spec policy name ≡ true → IsShown name artifacts

reasons-IsAccepted :
    (spec : ComputeTaskSpec) (policy : List String) (job : ComputeJob) (artifacts : List Artifact)
    (metrics : List Reason)
    → is_empty (
        job_reasons spec job
        ++ (name_reasons (required_names spec policy) (by_name [] artifacts) ++ metrics))
      ≡ true
    → IsAccepted spec policy job artifacts
unfolding job_reasons
reasons-IsAccepted spec policy job artifacts metrics h =
    let (of_job, others) = is_empty-append (job_reasons spec job) _ h in
    let (of_exit, of_status) = is_empty-append (exit_reasons spec job) _ of_job in
    let (of_names, of_metrics) =
      is_empty-append (name_reasons (required_names spec policy) (by_name [] artifacts)) metrics
        others in
    record {
      succeeded = status_reasons-empty job of_status;
      zero_exit = exit_reasons-empty spec job of_exit;
      shown = λ name required.
          name_reasons-IsShown name (required_names spec policy) artifacts
            (contains-required_names spec policy name ∙ required) of_names;
    }

abbrev pub own_artifacts : Task → List Artifact → List Artifact
own_artifacts task artifacts = where_rows (λ a. is_of task.id a.task_id) artifacts

the_task_ok :
    (id : String) (s : Session) (t : Task) → find id s.db.tasks ≡ some t → the_task id s ≡ (ok t, s)
unfolding the_task ◌>>=◌
the_task_ok id s t found = rw found refl

module _ (codec : Codec) (task : Task) (spec : ComputeTaskSpec) (policy : List String) where
  judge-passed :
      (job : ComputeJob) (s s' : Session) (v : ValidationResult)
      → IsValid s
      → required_of (get "required_artifacts" task.acceptance_policy_json) ≡ some policy
      → judge codec task spec job s ≡ (ok v, s')
      → v.passed ≡ true
      → IsAccepted spec policy job (own_artifacts task s.db.artifacts)
  unfolding judge
  judge-passed job s s' v valid named h passed =
      let reading = bind_ok _ _ s v s' h in
      let policed = bind_ok _ _ reading.between v s' reading.onward in
      let extended = bind_ok _ _ policed.between v s' policed.onward in
      let measured = bind_ok _ _ extended.between v s' extended.onward in
      let own : reading.value ≡ own_artifacts task s.db.artifacts =
        let found = reading.ran in
        let read = select_ok (λ db. own_artifacts task db.artifacts) s valid in cc in
      let same : policed.value ≡ policy = let got = (or_raise_ok _ _ _ _ _ policed.ran).0 in cc in
      let no_reason =
        conclude-passed spec reading.value _ measured.between s' v measured.onward passed in
      subst (IsAccepted spec policy job) own (
        subst (λ p. IsAccepted spec p job reading.value) same
          (reasons-IsAccepted spec policed.value job reading.value measured.value no_reason))

  judge_latest-passed :
      (found : Option ComputeJob) (s s' : Session) (v : ValidationResult)
      → IsValid s
      → required_of (get "required_artifacts" task.acceptance_policy_json) ≡ some policy
      → judge_latest codec task spec found s ≡ (ok v, s')
      → v.passed ≡ true
      → (job : ComputeJob) × (found ≡ some job)
        × IsAccepted spec policy job (own_artifacts task s.db.artifacts)
  unfolding judge_latest pure
  judge_latest-passed none s s' v valid named h passed = cc
  judge_latest-passed (some job) s s' v valid named h passed =
      (job, refl, judge-passed job s s' v valid named h passed)

  validate_run :
      (id : String) (s : Session)
      → IsValid s
      → find id s.db.tasks ≡ some task
      → codec.model_validate task.spec_json ≡ some spec
      → validate_compute_task codec id s
        ≡ judge_latest codec task spec (latest_job task.id s.db.compute_jobs) (written s)
  unfolding validate_compute_task ◌>>=◌
  validate_run id s valid found read =
      let rows = select_ok (λ db. latest_job task.id db.compute_jobs) s valid in
      rw (the_task_ok id s task found, read, rows) refl

  -- In a valid session, where the Task's spec and policy are read, a validation that returns "passed"
  -- was given a latest ComputeJob that SUCCEEDED, with exit code 0 if the spec asks for it, and for each
  -- of run.out, run.error, exit.json, the required outputs and the names of the policy an Artifact of the
  -- Task that stands for that name and is VERIFIED.
  pub validate_passed :
      (id : String) (s s' : Session) (v : ValidationResult)
      → IsValid s
      → find id s.db.tasks ≡ some task
      → codec.model_validate task.spec_json ≡ some spec
      → required_of (get "required_artifacts" task.acceptance_policy_json) ≡ some policy
      → validate_compute_task codec id s ≡ (ok v, s')
      → v.passed ≡ true
      → (job : ComputeJob) × (latest_job task.id s.db.compute_jobs ≡ some job)
        × IsAccepted spec policy job (own_artifacts task s.db.artifacts)
  validate_passed id s s' v valid found read named h passed =
      judge_latest-passed (latest_job task.id s.db.compute_jobs) (written s) s' v
        (written-IsValid s valid) named (sym (validate_run id s valid found read) ∙ h) passed
