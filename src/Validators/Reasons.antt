-- ===== src/Validators/Reasons.antt =====
-- services/validators.py: the reasons to reject a run. Pydantic's reading of a specification and the
-- reading of a JSON file are parameters.
use text.Mathlib.Text.{starts_with}
use semi_automated_research.Base.{
  ℕ, String, Option, none, some, Bool, true, false, not, ◌&&◌, ◌||◌, List, [], ◌∷◌, ◌++◌, map, ltb,
  ◌==◌, string_eq, contains, any, where_rows, f_string, if◌then◌else◌,
}
use semi_automated_research.Base.Json.{
  ℤ, pos, finite, Json, Items, Fields, float, arr, obj, nil, cons, empty, field,
}
use semi_automated_research.Base.Dict.{put}
use semi_automated_research.Base.Exec.{Result, ok, err, value_error}
use semi_automated_research.Domain.ComputeStatus.{
  ComputeExecutionStatus, compute_execution_status_eq, compute_execution_status_value,
}
use semi_automated_research.Domain.Resource.{ArtifactIntegrityStatus, artifact_integrity_status_eq}
use semi_automated_research.Db.Models.{ComputeJob, Artifact}
use semi_automated_research.Compute.Protocol.{ComputeTaskSpec}
use semi_automated_research.Compute.Codec.{Codec, Loaded, parsed, unreadable, undecodable}
use semi_automated_research.Validators.Names.{is_named_for}

-- `_contains_nonfinite`.
unfoldable mutual
  pub contains_nonfinite : Json → Bool
  contains_nonfinite (float (finite m e)) = false
  contains_nonfinite (float x) = true
  contains_nonfinite (obj fields) = some_field_nonfinite fields
  contains_nonfinite (arr items) = some_item_nonfinite items
  contains_nonfinite _ = false

  pub some_item_nonfinite : Items → Bool
  some_item_nonfinite nil = false
  some_item_nonfinite (cons v items) = contains_nonfinite v || some_item_nonfinite items

  pub some_field_nonfinite : Fields → Bool
  some_field_nonfinite empty = false
  some_field_nonfinite (field key v fields) = contains_nonfinite v || some_field_nonfinite fields

-- A reason to reject, before it is put into words.
pub data Reason : Type 0 where
  job_missing : Reason
  exit_code : Option ℤ → Reason
  terminal_status : ComputeExecutionStatus → Reason
  artifact_missing : String → Reason
  artifact_unverified : String → Reason
  no_metrics : Reason
  invalid_metrics : String → String → Reason
  nonfinite_metric : String → Reason

-- The text of a reason; `repr` is Python's.
abbrev pub reason_text : (Option ℤ → String) → Reason → String
reason_text repr job_missing = "compute job missing"
reason_text repr (exit_code c) = f_string ("exit code is " ∷ repr c ∷ ", expected 0" ∷ [])
reason_text repr (terminal_status t) =
    f_string ("compute job terminal status is " ∷ compute_execution_status_value t ∷ [])
reason_text repr (artifact_missing name) = f_string ("required artifact missing: " ∷ name ∷ [])
reason_text repr (artifact_unverified name) =
    f_string ("required artifact is not verified: " ∷ name ∷ [])
reason_text repr no_metrics = "metrics validator requested but no metrics artifact exists"
reason_text repr (invalid_metrics name exc) =
    f_string ("invalid metrics JSON " ∷ name ∷ ": " ∷ exc ∷ [])
reason_text repr (nonfinite_metric name) = f_string ("non-finite metric in " ∷ name ∷ [])

pub record ValidationResult : Type 0 where
  pub passed : Bool
  pub reasons : List Reason

-- The ComputeJob of the Task with the highest `attempt_no`.
unfoldable pub latest_job : String → List ComputeJob → Option ComputeJob
latest_job task_id [] = none
latest_job task_id (j ∷ js) =
    let rest = latest_job task_id js in
    if j.task_id == task_id
    then elim rest [
      | none ↦ some j
      | some k ↦ some (if ltb j.attempt_no k.attempt_no then k else j)
    ]
    else rest

abbrev pub is_zero : Option ℤ → Bool
is_zero (some (pos ℕ.zero)) = true
is_zero _ = false

unfoldable pub exit_reasons : ComputeTaskSpec → ComputeJob → List Reason
exit_reasons spec job =
    if spec.success.require_zero_exit_code && not (is_zero job.exit_code)
    then exit_code job.exit_code ∷ []
    else []

unfoldable pub status_reasons : ComputeJob → List Reason
status_reasons job =
    if job.execution_status == ComputeExecutionStatus.succeeded
    then []
    else terminal_status job.execution_status ∷ []

-- The reasons that the ComputeJob gives.
unfoldable pub job_reasons : ComputeTaskSpec → ComputeJob → List Reason
job_reasons spec job = exit_reasons spec job ++ status_reasons job

-- `{artifact.logical_name: artifact for artifact in artifacts}`.
unfoldable pub by_name : List (String × Artifact) → List Artifact → List (String × Artifact)
by_name d [] = d
by_name d (a ∷ artifacts) = by_name (put a.logical_name a d) artifacts

unfoldable pub matching : String → List (String × Artifact) → List Artifact
matching logical_name d = map (λ e. e.1) (where_rows (λ e. is_named_for logical_name e.0) d)

abbrev pub is_unverified : Artifact → Bool
is_unverified a = not (a.integrity_status == ArtifactIntegrityStatus.verified)

-- The reason that one required name gives, if any.
unfoldable pub name_reason : String → List Artifact → List Reason
name_reason logical_name [] = artifact_missing logical_name ∷ []
name_reason logical_name (a ∷ artifacts) =
    if any is_unverified (a ∷ artifacts) then artifact_unverified logical_name ∷ [] else []

unfoldable pub name_reasons : List String → List (String × Artifact) → List Reason
unfolding name_reason matching
name_reasons [] d = []
name_reasons (name ∷ names) d =
    let rest = name_reasons names d in name_reason name (matching name d) ++ rest

abbrev pub is_metrics : Artifact → Bool
is_metrics a = a.kind == "METRICS" || starts_with a.logical_name "metrics"

-- One round of the loop over the metrics files.
unfoldable pub metric_reason : Bool → Artifact → Loaded → Result (List Reason)
metric_reason no_nan a (parsed v) =
    ok (if no_nan && contains_nonfinite v then nonfinite_metric a.logical_name ∷ [] else [])
metric_reason no_nan a (unreadable exc) = ok (invalid_metrics a.logical_name exc ∷ [])
metric_reason no_nan a undecodable = err value_error

abbrev both : Result (List Reason) → Result (List Reason) → Result (List Reason)
both (ok xs) (ok ys) = ok (xs ++ ys)
both (ok xs) (err e) = err e
both (err e) rest = err e

unfoldable pub file_reasons : Codec → Bool → List Artifact → Result (List Reason)
unfolding metric_reason
file_reasons codec no_nan [] = ok []
file_reasons codec no_nan (a ∷ artifacts) =
    let rest = file_reasons codec no_nan artifacts in
    both (metric_reason no_nan a (codec.load a.uri)) rest

abbrev absent_reasons : List Artifact → List Reason
absent_reasons [] = no_metrics ∷ []
absent_reasons (a ∷ artifacts) = []

-- The reasons that the metrics validators give.
unfoldable pub metrics_reasons : Codec → List String → List Artifact → Result (List Reason)
metrics_reasons codec validators metrics =
    if contains "metrics_json" validators || contains "no_nan" validators
    then both (ok (absent_reasons metrics))
        (file_reasons codec (contains "no_nan" validators) metrics)
    else ok []
