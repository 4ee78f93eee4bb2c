-- ===== src/Domain/TaskStatus.antt =====
-- `TaskStatus` of domain/enums.py: the life of a Task.
use Prim.Native.Nat.{ℕ}
use semi_automated_research.Base.{◌≡◌, ◌↔◌, true, String, arith, Eq, nat_beq}

pub data TaskStatus : Type 0 where
  pending ready running verifying succeeded : TaskStatus
  failed blocked cancelled skipped : TaskStatus

abbrev pub task_status_rank : TaskStatus → ℕ
task_status_rank pending = 0
task_status_rank ready = 1
task_status_rank running = 2
task_status_rank verifying = 3
task_status_rank succeeded = 4
task_status_rank failed = 5
task_status_rank blocked = 6
task_status_rank cancelled = 7
task_status_rank skipped = 8

pub task_status_rank_iff :
    (a b : TaskStatus) → (nat_beq (task_status_rank a) (task_status_rank b) ≡ true) ↔ (a ≡ b)
task_status_rank_iff a b = ground arith

instance abbrev pub task_status_eq : Eq TaskStatus
task_status_eq = record {
  beq = λ a b. nat_beq (task_status_rank a) (task_status_rank b);
  beq_iff = task_status_rank_iff;
}

abbrev pub task_status_value : TaskStatus → String
task_status_value pending = "PENDING"
task_status_value ready = "READY"
task_status_value running = "RUNNING"
task_status_value verifying = "VERIFYING"
task_status_value succeeded = "SUCCEEDED"
task_status_value failed = "FAILED"
task_status_value blocked = "BLOCKED"
task_status_value cancelled = "CANCELLED"
task_status_value skipped = "SKIPPED"
