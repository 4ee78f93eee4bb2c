-- ===== src/Domain/Resource.antt =====
-- The enums of providers, resources and Artifacts, of domain/enums.py.
use Prim.Native.Nat.{ℕ}
use semi_automated_research.Base.{◌≡◌, ◌↔◌, true, String, arith, Eq, nat_beq}

pub data HealthLevel : Type 0 where
  healthy degraded unavailable : HealthLevel

pub data AccessStatus : Type 0 where
  reachable unreachable auth_required unknown : AccessStatus

pub data ResourceState : Type 0 where
  up degraded down draining unknown : ResourceState

pub data AccessMode : Type 0 where
  automatic manual : AccessMode

pub data ArtifactIntegrityStatus : Type 0 where
  pending verified invalid : ArtifactIntegrityStatus

abbrev pub artifact_integrity_status_rank : ArtifactIntegrityStatus → ℕ
artifact_integrity_status_rank pending = 0
artifact_integrity_status_rank verified = 1
artifact_integrity_status_rank invalid = 2

pub artifact_integrity_status_rank_iff :
    (a b : ArtifactIntegrityStatus)
    → (nat_beq (artifact_integrity_status_rank a) (artifact_integrity_status_rank b) ≡ true)
      ↔ (a ≡ b)
artifact_integrity_status_rank_iff a b = ground arith

instance abbrev pub artifact_integrity_status_eq : Eq ArtifactIntegrityStatus
artifact_integrity_status_eq = record {
  beq = λ a b. nat_beq (artifact_integrity_status_rank a) (artifact_integrity_status_rank b);
  beq_iff = artifact_integrity_status_rank_iff;
}

abbrev pub artifact_integrity_status_value : ArtifactIntegrityStatus → String
artifact_integrity_status_value pending = "PENDING"
artifact_integrity_status_value verified = "VERIFIED"
artifact_integrity_status_value invalid = "INVALID"
