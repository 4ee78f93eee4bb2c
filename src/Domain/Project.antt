-- ===== src/Domain/Project.antt =====
-- The enums of a Project and of the kinds of Tasks, of domain/enums.py.
use Prim.Native.Nat.{ℕ}
use semi_automated_research.Base.{◌≡◌, ◌↔◌, true, String, arith, Eq, nat_beq}

pub data ProjectLifecycle : Type 0 where
  queued active waiting_human paused blocked : ProjectLifecycle
  completed abandoned : ProjectLifecycle

abbrev pub project_lifecycle_rank : ProjectLifecycle → ℕ
project_lifecycle_rank queued = 0
project_lifecycle_rank active = 1
project_lifecycle_rank waiting_human = 2
project_lifecycle_rank paused = 3
project_lifecycle_rank blocked = 4
project_lifecycle_rank completed = 5
project_lifecycle_rank abandoned = 6

pub project_lifecycle_rank_iff :
    (a b : ProjectLifecycle)
    → (nat_beq (project_lifecycle_rank a) (project_lifecycle_rank b) ≡ true) ↔ (a ≡ b)
project_lifecycle_rank_iff a b = ground arith

instance abbrev pub project_lifecycle_eq : Eq ProjectLifecycle
project_lifecycle_eq = record {
  beq = λ a b. nat_beq (project_lifecycle_rank a) (project_lifecycle_rank b);
  beq_iff = project_lifecycle_rank_iff;
}

abbrev pub project_lifecycle_value : ProjectLifecycle → String
project_lifecycle_value queued = "QUEUED"
project_lifecycle_value active = "ACTIVE"
project_lifecycle_value waiting_human = "WAITING_HUMAN"
project_lifecycle_value paused = "PAUSED"
project_lifecycle_value blocked = "BLOCKED"
project_lifecycle_value completed = "COMPLETED"
project_lifecycle_value abandoned = "ABANDONED"

pub data ProjectPhase : Type 0 where
  ideation experiment writing terminal : ProjectPhase

pub data ProjectStage : Type 0 where
  literature_review idea_generation idea_review proposal_draft proposal_review : ProjectStage
  proposal_human_gate experiment_contract toy_implement toy_run toy_gate : ProjectStage
  full_implement smoke_test remote_run result_validation effectiveness_gate : ProjectStage
  analysis_experiments evidence_blueprint paper_draft evidence_audit paper_review : ProjectStage
  paper_revision final_human_gate completed abandoned : ProjectStage

pub data TaskKind : Type 0 where
  system agent compute human gate : TaskKind

pub data TaskExecutor : Type 0 where
  controller codex hermes compute human : TaskExecutor

abbrev pub task_executor_rank : TaskExecutor → ℕ
task_executor_rank controller = 0
task_executor_rank codex = 1
task_executor_rank hermes = 2
task_executor_rank compute = 3
task_executor_rank human = 4

pub task_executor_rank_iff :
    (a b : TaskExecutor) → (nat_beq (task_executor_rank a) (task_executor_rank b) ≡ true) ↔ (a ≡ b)
task_executor_rank_iff a b = ground arith

instance abbrev pub task_executor_eq : Eq TaskExecutor
task_executor_eq = record {
  beq = λ a b. nat_beq (task_executor_rank a) (task_executor_rank b);
  beq_iff = task_executor_rank_iff;
}
