-- ===== src/Reconciler.antt =====
-- services/reconciler.py: `ComputeReconciler`, which submits ComputeJobs, polls them, records what was
-- observed, collects their files and closes them.
pub mod Records
pub mod Valid
pub mod Quiet
pub mod Resume
use semi_automated_research.Base.{
  ℕ, ◌+◌, String, Option, none, some, Bool, true, false, not, ◌&&◌, ◌||◌, List, [], ◌∷◌, map, ◌==◌,
  string_eq, contains, where_rows, if◌then◌else◌,
}
use semi_automated_research.Base.Json.{Json, Fields, bool, str, empty, field, get, set, or_empty}
use semi_automated_research.Base.Exec.{
  Error, Result, ok, err, Exec, pure, or_raise, collect, value_error, ◌>>=◌, ◌>>◌,
}
use semi_automated_research.Domain.ComputeStatus.{
  ComputeExecutionStatus, compute_execution_status_eq, compute_execution_status_of_value,
}
use semi_automated_research.Domain.TaskStatus.{TaskStatus, task_status_eq}
use semi_automated_research.Db.Table.{find}
use semi_automated_research.Db.Models.{Task, ComputeJob, task_row, compute_job_row}
use semi_automated_research.Db.Session.{Db, Session, new_id, utc_now}
use semi_automated_research.Db.Session.Guard.{select}
use semi_automated_research.Transitions.{
  task_defaults, job_defaults, transition_task, transition_compute_job,
}
use semi_automated_research.Readiness.{none_or_due}
use semi_automated_research.Compute.Protocol.{
  ComputeTaskSpec, ComputeJobView, JobObservation, ArtifactCandidate,
}
use semi_automated_research.Compute.Codec.{Codec}
use semi_automated_research.Compute.Effects
use semi_automated_research.Compute.Effects.{Providers}
use semi_automated_research.Artifacts.{Storage, IngestArgs, ingest_file}
use semi_automated_research.World.{World, on_session, on_outside, look, begin}
use Records.{pollable, mark_submitted, poll_failed, record_observation, close_job}

-- `job_view`.
abbrev pub job_view : ComputeJob → ComputeJobView
job_view j = record {
  id = j.id;
  project_id = j.project_id;
  task_id = j.task_id;
  provider_id = j.provider_id;
  resource_class = j.resource_class;
  submission_key = j.submission_key;
  external_job_id = j.external_job_id;
  remote_workdir = j.remote_workdir;
  execution_status = j.execution_status;
  observation_status = j.observation_status;
  log_cursor = j.log_cursor_json;
  provider_metadata = j.provider_metadata_json;
}

-- `[… for job in session.scalars(…)]`: a specification that does not validate raises before any
-- ComputeJob is looked at.
abbrev pub with_specs : Codec → List ComputeJob → Option (List (ComputeJobView × ComputeTaskSpec))
with_specs codec [] = some []
with_specs codec (j ∷ js) = elim (codec.model_validate j.spec_json) [
  | none ↦ none
  | some spec ↦ elim (with_specs codec js) [
    | none ↦ none
    | some rest ↦ some ((job_view j, spec) ∷ rest)
  ]
]

abbrev has_status : ComputeExecutionStatus → ComputeJob → Bool
has_status status j = j.execution_status == status

abbrev is_due : ℕ → ComputeJob → Bool
is_due now j = contains j.execution_status pollable && none_or_due j.next_poll_at now

-- `m` in a `try`: what it raised is a value.
unfoldable pub attempt : {S A : Type 0} → Exec S A → Exec S (Result A)
attempt m s = let (r, s') = m s in (ok r, s')

-- A candidate's keyword arguments of `ingest_file`.
abbrev pub ingest_args : ComputeJobView → String → ArtifactCandidate → IngestArgs
ingest_args view correlation_id c = record {
  project_id = view.project_id;
  task_id = some view.task_id;
  source = c.path;
  logical_name = c.logical_name;
  kind = c.artifact_kind;
  producer_type = "COMPUTE_JOB";
  producer_ref_id = view.id;
  evidence_eligible = false;
  schema_name = none;
  metadata = some (set "evidence_candidate" (bool c.evidence_candidate) c.metadata);
  correlation_id = some correlation_id;
}

module _ {W : Type 0} (providers : Providers W) where
  -- The job id of a submission that was launched before, or of one that is made now.
  unfoldable pub or_submit : ComputeJobView → ComputeTaskSpec → Option String → Exec W String
  or_submit view spec (some external_id) = pure external_id
  or_submit view spec none = do
    prepared ← (providers.ops view.provider_id).prepare spec view.resource_class
    (providers.ops view.provider_id).submit prepared

  -- One round of the loop of `reconcile_created`.
  unfoldable pub submit_created : ComputeJobView × ComputeTaskSpec → Exec (World W) (Option String)
  submit_created (view, spec) = do
    on_outside (Effects.get providers view.provider_id)
    launched ←
        on_outside ((providers.ops view.provider_id).reconcile_submission view.submission_key)
    external_id ← on_outside (or_submit view spec launched)
    begin (on_session (mark_submitted view.id external_id))

  -- `reconcile_created`.
  unfoldable pub reconcile_created : Codec → Exec (World W) (List String)
  reconcile_created codec = do
    found ← look (λ db.
        with_specs codec (where_rows (has_status ComputeExecutionStatus.created) db.compute_jobs))
    records ← or_raise found value_error
    collect submit_created records

  -- What follows the poll of a ComputeJob.
  unfoldable pub after_poll :
      ℕ → ℕ → ComputeJobView → Result JobObservation → Exec (World W) (Option String)
  after_poll interval now view (err e) = do
    begin (on_session (poll_failed interval now e view.id))
    pure none
  after_poll interval now view (ok o) = do
    begin (on_session (record_observation interval o))
    pure (some view.id)

  -- One round of the loop of `reconcile_due`.
  unfoldable pub poll_one : ℕ → ℕ → ComputeJobView → Exec (World W) (Option String)
  poll_one interval now view = do
    on_outside (Effects.get providers view.provider_id)
    answer ← on_outside (attempt ((providers.ops view.provider_id).poll view))
    after_poll interval now view answer

  -- The loop over the candidates, each in a transaction of its own.
  unfoldable pub ingest_all :
      Storage → ComputeJobView → String → List ArtifactCandidate → Exec (World W) (Unit {0})
  ingest_all storage view correlation_id [] = pure tt
  ingest_all storage view correlation_id (c ∷ cs) =
      let rest = ingest_all storage view correlation_id cs in
      begin (ingest_file storage (ingest_args view correlation_id c)) >>= λ _. rest

  -- One round of the loop of `_reconcile_collecting`.
  unfoldable pub collect_one : Storage → ComputeJobView → Exec (World W) (Option String)
  collect_one storage view = do
    on_outside (Effects.get providers view.provider_id)
    candidates ← on_outside ((providers.ops view.provider_id).collect view)
    correlation_id ← on_session (new_id "corr")
    ingest_all storage view correlation_id candidates
    begin (on_session (close_job view.id correlation_id))

  -- `_reconcile_collecting`.
  unfoldable pub reconcile_collecting : Storage → Exec (World W) (List String)
  reconcile_collecting storage = do
    views ← look (λ db.
        map job_view (where_rows (has_status ComputeExecutionStatus.collecting) db.compute_jobs))
    collect (collect_one storage) views

  -- `reconcile_due`; the interval between two polls is in microseconds.
  unfoldable pub reconcile_due : Storage → ℕ → Exec (World W) (List String)
  reconcile_due storage interval = do
    reconcile_collecting storage
    now ← on_session utc_now
    views ← look (λ db. map job_view (where_rows (is_due now) db.compute_jobs))
    polled_ids ← collect (poll_one interval now) views
    reconcile_collecting storage
    pure polled_ids
