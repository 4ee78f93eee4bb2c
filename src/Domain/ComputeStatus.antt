-- ===== src/Domain/ComputeStatus.antt =====
-- `ComputeExecutionStatus` of domain/enums.py, and the call `ComputeExecutionStatus(value)`.
use Prim.Native.Nat.{ℕ}
use semi_automated_research.Base.{
  ◌≡◌, ◌↔◌, refl, true, String, Option, none, some, List, [], ◌∷◌, arith, Eq, nat_beq, string_eq,
  ◌==◌, if◌then◌else◌,
}

pub data ComputeExecutionStatus : Type 0 where
  created submitted pending running collecting : ComputeExecutionStatus
  succeeded failed oom timeout cancelled : ComputeExecutionStatus

abbrev pub compute_execution_status_rank : ComputeExecutionStatus → ℕ
compute_execution_status_rank created = 0
compute_execution_status_rank submitted = 1
compute_execution_status_rank pending = 2
compute_execution_status_rank running = 3
compute_execution_status_rank collecting = 4
compute_execution_status_rank succeeded = 5
compute_execution_status_rank failed = 6
compute_execution_status_rank oom = 7
compute_execution_status_rank timeout = 8
compute_execution_status_rank cancelled = 9

pub compute_execution_status_rank_iff :
    (a b : ComputeExecutionStatus)
    → (nat_beq (compute_execution_status_rank a) (compute_execution_status_rank b) ≡ true) ↔ (a ≡ b)
compute_execution_status_rank_iff a b = ground arith

instance abbrev pub compute_execution_status_eq : Eq ComputeExecutionStatus
compute_execution_status_eq = record {
  beq = λ a b. nat_beq (compute_execution_status_rank a) (compute_execution_status_rank b);
  beq_iff = compute_execution_status_rank_iff;
}

abbrev pub compute_execution_status_value : ComputeExecutionStatus → String
compute_execution_status_value created = "CREATED"
compute_execution_status_value submitted = "SUBMITTED"
compute_execution_status_value pending = "PENDING"
compute_execution_status_value running = "RUNNING"
compute_execution_status_value collecting = "COLLECTING"
compute_execution_status_value succeeded = "SUCCEEDED"
compute_execution_status_value failed = "FAILED"
compute_execution_status_value oom = "OOM"
compute_execution_status_value timeout = "TIMEOUT"
compute_execution_status_value cancelled = "CANCELLED"

abbrev members : List ComputeExecutionStatus
members =
    created ∷ submitted ∷ pending ∷ running ∷ collecting ∷ succeeded ∷ failed ∷ oom ∷ timeout
    ∷ cancelled ∷ []

abbrev first_named : String → List ComputeExecutionStatus → Option ComputeExecutionStatus
first_named v [] = none
first_named v (m ∷ ms) = if compute_execution_status_value m == v then some m else first_named v ms

-- `ComputeExecutionStatus(value)`, which raises `ValueError` where no member has the value.
pub compute_execution_status_of_value : String → Option ComputeExecutionStatus
compute_execution_status_of_value v = first_named v members

-- `ComputeExecutionStatus(value)` reads every status back from its own value.
pub of_value-value :
    (s : ComputeExecutionStatus)
    → compute_execution_status_of_value (compute_execution_status_value s) ≡ some s
unfolding compute_execution_status_of_value
of_value-value created = refl
of_value-value _ = refl
