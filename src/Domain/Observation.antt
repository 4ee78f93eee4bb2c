-- ===== src/Domain/Observation.antt =====
-- `ObservationStatus` and `FailureClass` of domain/enums.py.
use Prim.Native.Nat.{ℕ}
use semi_automated_research.Base.{◌≡◌, ◌↔◌, true, String, arith, Eq, nat_beq}

pub data ObservationStatus : Type 0 where
  fresh stale unreachable auth_required poll_error : ObservationStatus

abbrev pub observation_status_rank : ObservationStatus → ℕ
observation_status_rank fresh = 0
observation_status_rank stale = 1
observation_status_rank unreachable = 2
observation_status_rank auth_required = 3
observation_status_rank poll_error = 4

pub observation_status_rank_iff :
    (a b : ObservationStatus)
    → (nat_beq (observation_status_rank a) (observation_status_rank b) ≡ true) ↔ (a ≡ b)
observation_status_rank_iff a b = ground arith

instance abbrev pub observation_status_eq : Eq ObservationStatus
observation_status_eq = record {
  beq = λ a b. nat_beq (observation_status_rank a) (observation_status_rank b);
  beq_iff = observation_status_rank_iff;
}

abbrev pub observation_status_value : ObservationStatus → String
observation_status_value fresh = "FRESH"
observation_status_value stale = "STALE"
observation_status_value unreachable = "UNREACHABLE"
observation_status_value auth_required = "AUTH_REQUIRED"
observation_status_value poll_error = "POLL_ERROR"

pub data FailureClass : Type 0 where
  none code environment resource infrastructure : FailureClass
  user_cancel unknown : FailureClass
