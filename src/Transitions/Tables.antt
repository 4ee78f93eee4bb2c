-- ===== src/Transitions/Tables.antt =====
-- The tables of services/transitions.py: which status may follow which, and the Event type of each.
use semi_automated_research.Base.{String, Option, none, some, List, [], ◌∷◌}
use semi_automated_research.Domain.TaskStatus.{TaskStatus}
use semi_automated_research.Domain.ComputeStatus.{ComputeExecutionStatus}

-- `TASK_TRANSITIONS`.
abbrev pub task_transitions : TaskStatus → List TaskStatus
task_transitions TaskStatus.pending =
    TaskStatus.ready ∷ TaskStatus.blocked ∷ TaskStatus.cancelled ∷ TaskStatus.skipped ∷ []
task_transitions TaskStatus.ready =
    TaskStatus.running ∷ TaskStatus.blocked ∷ TaskStatus.cancelled ∷ []
task_transitions TaskStatus.running =
    TaskStatus.verifying ∷ TaskStatus.failed ∷ TaskStatus.blocked ∷ TaskStatus.cancelled ∷ []
task_transitions TaskStatus.verifying =
    TaskStatus.succeeded ∷ TaskStatus.failed ∷ TaskStatus.blocked ∷ []
task_transitions TaskStatus.failed =
    TaskStatus.ready ∷ TaskStatus.blocked ∷ TaskStatus.cancelled ∷ []
task_transitions TaskStatus.blocked = TaskStatus.ready ∷ TaskStatus.cancelled ∷ []
task_transitions TaskStatus.succeeded = []
task_transitions TaskStatus.cancelled = []
task_transitions TaskStatus.skipped = []

-- `COMPUTE_TRANSITIONS`.
abbrev pub compute_transitions : ComputeExecutionStatus → List ComputeExecutionStatus
compute_transitions ComputeExecutionStatus.created =
    ComputeExecutionStatus.submitted ∷ ComputeExecutionStatus.pending
    ∷ ComputeExecutionStatus.running ∷ ComputeExecutionStatus.failed
    ∷ ComputeExecutionStatus.cancelled ∷ []
compute_transitions ComputeExecutionStatus.submitted =
    ComputeExecutionStatus.pending ∷ ComputeExecutionStatus.running
    ∷ ComputeExecutionStatus.collecting ∷ ComputeExecutionStatus.succeeded
    ∷ ComputeExecutionStatus.failed ∷ ComputeExecutionStatus.oom ∷ ComputeExecutionStatus.timeout
    ∷ ComputeExecutionStatus.cancelled ∷ []
compute_transitions ComputeExecutionStatus.pending =
    ComputeExecutionStatus.running ∷ ComputeExecutionStatus.collecting
    ∷ ComputeExecutionStatus.succeeded ∷ ComputeExecutionStatus.failed ∷ ComputeExecutionStatus.oom
    ∷ ComputeExecutionStatus.timeout ∷ ComputeExecutionStatus.cancelled ∷ []
compute_transitions ComputeExecutionStatus.running =
    ComputeExecutionStatus.collecting ∷ ComputeExecutionStatus.succeeded
    ∷ ComputeExecutionStatus.failed ∷ ComputeExecutionStatus.oom ∷ ComputeExecutionStatus.timeout
    ∷ ComputeExecutionStatus.cancelled ∷ []
compute_transitions ComputeExecutionStatus.collecting =
    ComputeExecutionStatus.succeeded ∷ ComputeExecutionStatus.failed ∷ ComputeExecutionStatus.oom
    ∷ ComputeExecutionStatus.timeout ∷ ComputeExecutionStatus.cancelled ∷ []
compute_transitions ComputeExecutionStatus.succeeded = []
compute_transitions ComputeExecutionStatus.failed = []
compute_transitions ComputeExecutionStatus.oom = []
compute_transitions ComputeExecutionStatus.timeout = []
compute_transitions ComputeExecutionStatus.cancelled = []

-- `TASK_EVENT_TYPES`; `none` is a missing key.
abbrev pub task_event_type : TaskStatus → Option String
task_event_type TaskStatus.pending = none
task_event_type TaskStatus.ready = some "TASK_READY"
task_event_type TaskStatus.running = some "TASK_STARTED"
task_event_type TaskStatus.verifying = some "TASK_VERIFYING"
task_event_type TaskStatus.succeeded = some "TASK_SUCCEEDED"
task_event_type TaskStatus.failed = some "TASK_FAILED"
task_event_type TaskStatus.blocked = some "TASK_BLOCKED"
task_event_type TaskStatus.cancelled = some "TASK_CANCELLED"
task_event_type TaskStatus.skipped = some "TASK_SKIPPED"

-- `COMPUTE_EVENT_TYPES`; `none` is a missing key.
abbrev pub compute_event_type : ComputeExecutionStatus → Option String
compute_event_type ComputeExecutionStatus.created = none
compute_event_type ComputeExecutionStatus.submitted = some "COMPUTE_JOB_SUBMITTED"
compute_event_type ComputeExecutionStatus.pending = some "COMPUTE_JOB_PENDING"
compute_event_type ComputeExecutionStatus.running = some "COMPUTE_JOB_STARTED"
compute_event_type ComputeExecutionStatus.collecting = some "COMPUTE_JOB_COLLECTING"
compute_event_type ComputeExecutionStatus.succeeded = some "COMPUTE_JOB_SUCCEEDED"
compute_event_type ComputeExecutionStatus.failed = some "COMPUTE_JOB_FAILED"
compute_event_type ComputeExecutionStatus.oom = some "COMPUTE_JOB_OOM"
compute_event_type ComputeExecutionStatus.timeout = some "COMPUTE_JOB_TIMEOUT"
compute_event_type ComputeExecutionStatus.cancelled = some "COMPUTE_JOB_CANCELLED"
