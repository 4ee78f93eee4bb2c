-- ===== src/Validators.antt =====
-- services/validators.py: `TaskValidator.validate_compute_task`, which decides whether a Task's run is
-- accepted.
pub mod Names
pub mod Reasons
pub mod Finite
pub mod Shown
pub mod Accepted
pub mod Valid
use Prim.Native.Nat.{Ordering}
use Prim.Native.String.{compare}
use text.Mathlib.Text.{starts_with}
use semi_automated_research.Base.{
  ℕ, String, Option, none, some, Bool, true, false, not, ◌&&◌, ◌||◌, List, [], ◌∷◌, ◌++◌, map, ltb,
  ◌==◌, string_eq, contains, any, where_rows, f_string, if◌then◌else◌,
}
use semi_automated_research.Base.Json.{
  ℤ, pos, negsuc, Float, finite, Json, Items, Fields, null, bool, int, float, str, arr, obj, nil,
  cons, empty, field, get,
}
use semi_automated_research.Base.Dict.{put}
use semi_automated_research.Base.Exec.{
  Exec, Result, ok, err, pure, raise, or_raise, value_error, type_error, ◌>>=◌, ◌>>◌,
}
use semi_automated_research.Domain.ComputeStatus.{
  ComputeExecutionStatus, compute_execution_status_eq, compute_execution_status_value,
}
use semi_automated_research.Domain.Resource.{ArtifactIntegrityStatus, artifact_integrity_status_eq}
use semi_automated_research.Db.Models.{Task, ComputeJob, Artifact}
use semi_automated_research.Db.Session.{Session, the_task, edit_artifact}
use semi_automated_research.Db.Session.Guard.{select}
use semi_automated_research.Compute.Protocol.{ComputeTaskSpec, OutputSpec, ResourceSnapshot}
use semi_automated_research.Validators.Names.{
  required_of, validators_of, output_names, required_names, is_named_for,
}
use semi_automated_research.Compute.Codec.{Codec}
use semi_automated_research.Validators.Reasons.{
  Reason, job_missing, ValidationResult, latest_job, job_reasons, by_name, name_reasons, is_metrics,
  metrics_reasons,
}

abbrev pub is_empty {ℓ} : {A : Type ℓ} → List A → Bool
is_empty [] = true
is_empty (x ∷ xs) = false

-- `artifact.evidence_eligible = True` for the Artifacts that an output names as evidence.
abbrev pub is_evidence : List String → Artifact → Bool
is_evidence names a = any (λ name. is_named_for name a.logical_name) names

unfoldable pub mark_evidence : List String → List Artifact → Exec Session (Unit {0})
mark_evidence names [] = pure tt
mark_evidence names (a ∷ artifacts) =
    let rest = mark_evidence names artifacts in
    (if is_evidence names a
      then edit_artifact a.id (λ r. record r { evidence_eligible = true })
      else pure tt)
    >>= λ _. rest

-- The result, and the marks where there is no reason to reject.
unfoldable pub conclude :
    ComputeTaskSpec → List Artifact → List Reason → Exec Session ValidationResult
conclude spec artifacts reasons = do
  if is_empty reasons
      then mark_evidence (output_names (λ o. o.evidence_candidate) spec.outputs) artifacts
      else pure tt
  pure (record { passed = is_empty reasons; reasons = reasons })

abbrev pub lift : {A : Type 0} → Result A → Exec Session A
lift (ok a) s = (ok a, s)
lift (err e) s = (err e, s)

abbrev pub is_of : String → Option String → Bool
is_of id none = false
is_of id (some task_id) = task_id == id

-- The part past `if job is None`.
unfoldable pub judge : Codec → Task → ComputeTaskSpec → ComputeJob → Exec Session ValidationResult
judge codec task spec job = do
  artifacts ← select (λ db. where_rows (λ a. is_of task.id a.task_id) db.artifacts)
  policy ← or_raise (required_of (get "required_artifacts" task.acceptance_policy_json)) type_error
  extra ← or_raise (validators_of (get "validators" task.acceptance_policy_json)) type_error
  metrics ← lift (
      metrics_reasons codec (spec.success.required_validators ++ extra)
        (where_rows is_metrics artifacts))
  conclude spec artifacts (
      job_reasons spec job
      ++ (name_reasons (required_names spec policy) (by_name [] artifacts) ++ metrics))

unfoldable pub judge_latest :
    Codec → Task → ComputeTaskSpec → Option ComputeJob → Exec Session ValidationResult
judge_latest codec task spec none = pure (record { passed = false; reasons = job_missing ∷ [] })
judge_latest codec task spec (some job) = judge codec task spec job

-- `TaskValidator.validate_compute_task`.
unfoldable pub validate_compute_task : Codec → String → Exec Session ValidationResult
validate_compute_task codec id = do
  task ← the_task id
  spec ← or_raise (codec.model_validate task.spec_json) value_error
  job ← select (λ db. latest_job task.id db.compute_jobs)
  judge_latest codec task spec job
