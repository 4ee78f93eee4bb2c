-- ===== src/Db/Models.antt =====
-- db/models.py: a record for each table that the services use. JSON columns are `Fields`, datetimes are
-- instants as numbers, a nullable column is an `Option`. `updated_at`, which the database writes and
-- nothing reads, and `agent_runs`, which nothing fills, are left out.
use Prim.Native.Nat.{ℕ}
use Prim.Native.String.{String}
use mathlib.Core.Bool.{Bool}
use mathlib.Core.Option.{Option}
use semi_automated_research.Base.Json.{Fields, ℤ}
use semi_automated_research.Domain.TaskStatus.{TaskStatus}
use semi_automated_research.Domain.ComputeStatus.{ComputeExecutionStatus}
use semi_automated_research.Domain.Observation.{ObservationStatus, FailureClass}
use semi_automated_research.Domain.Project.{
  ProjectLifecycle, ProjectPhase, ProjectStage, TaskKind, TaskExecutor,
}
use semi_automated_research.Domain.Resource.{ArtifactIntegrityStatus}
use semi_automated_research.Db.Table.{Row}

-- Table `projects`.
pub record Project : Type 0 where
  pub id : String
  pub slug : String
  pub title : String
  pub brief : String
  pub workspace_uri : String
  pub lifecycle : ProjectLifecycle
  pub phase : ProjectPhase
  pub stage : ProjectStage
  pub priority : ℤ
  pub active_proposal_artifact_id : Option String
  pub active_contract_artifact_id : Option String
  pub active_paper_artifact_id : Option String
  pub protocol_revision : ℕ
  pub protocol_frozen : Bool
  pub paper_review_round : ℕ
  pub budget_json : Fields
  pub policy_json : Fields
  pub event_seq : ℕ
  pub lock_version : ℕ
  pub created_at : ℕ

instance abbrev pub project_row : Row Project
project_row = record { id = λ r. r.id }

-- Table `task_dependencies`.
pub record TaskDependency : Type 0 where
  pub task_id : String
  pub depends_on_task_id : String
  pub created_at : ℕ

-- Table `task_artifacts`.
pub record TaskArtifact : Type 0 where
  pub task_id : String
  pub artifact_id : String
  pub role : String

-- Table `tasks`.
pub record Task : Type 0 where
  pub id : String
  pub project_id : String
  pub parent_task_id : Option String
  pub contract_item_key : Option String
  pub stage : ProjectStage
  pub kind : TaskKind
  pub action : String
  pub executor : TaskExecutor
  pub status : TaskStatus
  pub block_reason : Option String
  pub required : Bool
  pub priority : ℤ
  pub spec_json : Fields
  pub output_spec_json : Fields
  pub acceptance_policy_json : Fields
  pub retry_policy_json : Fields
  pub escalation_policy_json : Fields
  pub routing_policy_json : Fields
  pub attempt_count : ℕ
  pub max_attempts : ℕ
  pub idempotency_key : String
  pub not_before : Option ℕ
  pub next_retry_at : Option ℕ
  pub deadline : Option ℕ
  pub lease_owner : Option String
  pub lease_expires_at : Option ℕ
  pub result_summary_json : Fields
  pub error_summary : Option String
  pub created_by : String
  pub created_at : ℕ
  pub started_at : Option ℕ
  pub finished_at : Option ℕ
  pub lock_version : ℕ

instance abbrev pub task_row : Row Task
task_row = record { id = λ r. r.id }

-- Table `events`.
pub record Event : Type 0 where
  pub id : String
  pub project_id : String
  pub seq : ℕ
  pub event_type : String
  pub entity_type : String
  pub entity_id : String
  pub actor_type : String
  pub actor_id : Option String
  pub correlation_id : String
  pub causation_event_id : Option String
  pub dedupe_key : Option String
  pub old_state : Option String
  pub new_state : Option String
  pub severity : String
  pub payload_json : Fields
  pub created_at : ℕ

-- Table `compute_jobs`.
pub record ComputeJob : Type 0 where
  pub id : String
  pub project_id : String
  pub task_id : String
  pub provider_id : String
  pub resource_class : String
  pub submission_key : String
  pub attempt_no : ℕ
  pub external_job_id : Option String
  pub remote_workdir : String
  pub execution_status : ComputeExecutionStatus
  pub observation_status : ObservationStatus
  pub resource_snapshot_json : Fields
  pub provider_metadata_json : Fields
  pub spec_json : Fields
  pub submitted_at : Option ℕ
  pub started_at : Option ℕ
  pub finished_at : Option ℕ
  pub last_confirmed_at : Option ℕ
  pub last_poll_at : Option ℕ
  pub next_poll_at : Option ℕ
  pub last_progress_at : Option ℕ
  pub exit_code : Option ℤ
  pub failure_class : FailureClass
  pub log_paths_json : Fields
  pub log_cursor_json : Fields
  pub runtime_summary_json : Fields
  pub submission_script_artifact_id : Option String
  pub stdout_artifact_id : Option String
  pub stderr_artifact_id : Option String
  pub created_at : ℕ
  pub lock_version : ℕ

instance abbrev pub compute_job_row : Row ComputeJob
compute_job_row = record { id = λ r. r.id }

-- Table `artifacts`.
pub record Artifact : Type 0 where
  pub id : String
  pub project_id : String
  pub task_id : Option String
  pub kind : String
  pub logical_name : String
  pub version : ℕ
  pub storage_backend : String
  pub uri : String
  pub mime_type : Option String
  pub size_bytes : ℕ
  pub sha256 : String
  pub producer_type : String
  pub producer_ref_id : String
  pub parent_artifact_id : Option String
  pub integrity_status : ArtifactIntegrityStatus
  pub schema_name : Option String
  pub evidence_eligible : Bool
  pub metadata_json : Fields
  pub created_at : ℕ
  pub verified_at : Option ℕ

instance abbrev pub artifact_row : Row Artifact
artifact_row = record { id = λ r. r.id }
