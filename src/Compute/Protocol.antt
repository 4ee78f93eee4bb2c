-- ===== src/Compute/Protocol.antt =====
-- protocols/compute.py: the models that cross the boundary to a provider. `schema_version` and `mode`,
-- which hold one literal each, are left out. A `float` here is a finite amount of memory that is not
-- negative, counted in units of 2^-1074 GB, of which every such double is a whole multiple.
use semi_automated_research.Base.{
  ℕ, String, Option, none, some, Bool, true, false, not, ◌&&◌, List, [], ◌∷◌, leb, ltb,
}
use semi_automated_research.Base.Json.{ℤ, Fields}
use semi_automated_research.Domain.ComputeStatus.{ComputeExecutionStatus}
use semi_automated_research.Domain.Observation.{ObservationStatus, FailureClass}
use semi_automated_research.Domain.Resource.{HealthLevel, AccessStatus, ResourceState, AccessMode}

pub record ExecutionSpec : Type 0 where
  pub command : List String
  pub entrypoint_artifact_id : Option String
  pub argv : List String
  pub environment_ref : String
  pub env : List (String × String)

pub record ResourceRequirements : Type 0 where
  pub gpu_count : ℕ
  pub min_gpu_memory_gb : ℕ
  pub cpu_cores : ℕ
  pub memory_gb : ℕ
  pub walltime_sec : ℕ
  pub required_capabilities : List String

pub record OutputSpec : Type 0 where
  pub logical_name : String
  pub glob : String
  pub required : Bool
  pub artifact_kind : String
  pub evidence_candidate : Bool

pub record RoutingSpec : Type 0 where
  pub allowed_providers : List String
  pub allow_manual_provider : Bool

pub record SuccessSpec : Type 0 where
  pub require_zero_exit_code : Bool
  pub required_validators : List String

pub record ComputeTaskSpec : Type 0 where
  pub project_id : String
  pub task_id : String
  pub submission_key : String
  pub execution : ExecutionSpec
  pub resources : ResourceRequirements
  pub outputs : List OutputSpec
  pub routing : RoutingSpec
  pub success : SuccessSpec

pub record ProviderHealth : Type 0 where
  pub provider_id : String
  pub checked_at : ℕ
  pub valid_until : ℕ
  pub level : HealthLevel
  pub access : AccessStatus
  pub transport : String
  pub scheduler : String
  pub storage : String
  pub can_submit : Bool
  pub can_poll : Bool
  pub can_collect : Bool
  pub human_action_required : Bool
  pub human_action_code : Option String
  pub reasons : List String
  pub metadata : Fields

pub record ResourceOffer : Type 0 where
  pub resource_class : String
  pub resource_state : ResourceState
  pub operational : Bool
  pub schedulable : Bool
  pub gpu_model : Option String
  pub gpu_memory_gb : Option ℕ
  pub gpu_per_node : ℕ
  pub idle_nodes : ℕ
  pub allocated_nodes : ℕ
  pub total_nodes : ℕ
  pub queue_depth : ℕ
  pub access_mode : AccessMode
  pub capabilities : List String
  pub metadata : Fields

pub record ResourceSnapshot : Type 0 where
  pub provider_id : String
  pub observed_at : ℕ
  pub valid_until : ℕ
  pub offers : List ResourceOffer
  pub metadata : Fields

pub record ArtifactCandidate : Type 0 where
  pub logical_name : String
  pub path : String
  pub artifact_kind : String
  pub required : Bool
  pub evidence_candidate : Bool
  pub metadata : Fields

pub record PreparedJob : Type 0 where
  pub provider_id : String
  pub submission_key : String
  pub resource_class : String
  pub workdir : String
  pub command : List String
  pub env : List (String × String)
  pub outputs : List OutputSpec
  pub metadata : Fields

pub record ComputeJobView : Type 0 where
  pub id : String
  pub project_id : String
  pub task_id : String
  pub provider_id : String
  pub resource_class : String
  pub submission_key : String
  pub external_job_id : Option String
  pub remote_workdir : String
  pub execution_status : ComputeExecutionStatus
  pub observation_status : ObservationStatus
  pub log_cursor : Fields
  pub provider_metadata : Fields

pub record JobObservation : Type 0 where
  pub provider_id : String
  pub compute_job_id : String
  pub external_job_id : Option String
  pub observed_at : ℕ
  pub observation_status : ObservationStatus
  pub execution_status : ComputeExecutionStatus
  pub raw_scheduler_state : Option String
  pub exit_code : Option ℤ
  pub failure_class : FailureClass
  pub retryable : Bool
  pub progress : Fields
  pub log_deltas : List (String × String)
  pub log_cursor : Fields
  pub anomalies : List String
  pub artifact_candidates : List ArtifactCandidate
  pub metadata : Fields

abbrev is_empty {ℓ} : {A : Type ℓ} → List A → Bool
is_empty [] = true
is_empty (x ∷ xs) = false

abbrev no_text : Option String → Bool
no_text none = true
no_text (some String.[]) = true
no_text (some (String.◌∷◌ c s)) = false

-- `ExecutionSpec.require_entrypoint`, true where it raises nothing.
unfoldable pub require_entrypoint : ExecutionSpec → Bool
require_entrypoint e = not (is_empty e.command && no_text e.entrypoint_artifact_id)

-- The bounds of the fields of `ResourceRequirements` that a natural number does not have by itself.
unfoldable pub in_bounds : ResourceRequirements → Bool
in_bounds r = leb 1 r.cpu_cores && (ltb 0 r.memory_gb && leb 1 r.walltime_sec)
