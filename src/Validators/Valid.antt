-- ===== src/Validators/Valid.antt =====
-- `TaskValidator.validate_compute_task` keeps the session valid.
use semi_automated_research.Base.{String, Option, none, some, List, [], ◌∷◌, refl, true}
use semi_automated_research.Base.Exec.{Result, ok, err}
use semi_automated_research.Base.Exec.Keeps.{Keeps, Keeps-pure, Keeps-bind, Keeps-if, keeps_rules}
use semi_automated_research.Db.Models.{Task, ComputeJob, Artifact}
use semi_automated_research.Db.Session.Guard.{identity_kept}
use semi_automated_research.Invariant.{IsValid}
use semi_automated_research.Invariant.Flush.{select-IsValid, the_task-IsValid}
use semi_automated_research.Invariant.Edits.{IsQuietArtifact, edit_artifact-IsValid}
use semi_automated_research.Compute.Protocol.{ComputeTaskSpec}
use semi_automated_research.Compute.Codec.{Codec}
use semi_automated_research.Validators.Reasons.{Reason}
use semi_automated_research.Validators.{
  mark_evidence, conclude, lift, judge, judge_latest, validate_compute_task,
}

abbrev marked : Artifact → Artifact
marked r = record r { evidence_eligible = true }

marked-IsQuietArtifact : IsQuietArtifact marked
unfolding identity_kept
marked-IsQuietArtifact = record { id = λ a. refl; identity = λ old a. refl }

mark_evidence-IsValid :
    (names : List String) (artifacts : List Artifact)
    → Keeps IsValid (mark_evidence names artifacts)
unfolding mark_evidence
mark_evidence-IsValid names [] = Keeps-pure tt
mark_evidence-IsValid names (a ∷ artifacts) =
    Keeps-bind _ _
      (Keeps-if _ _ _ (λ _. edit_artifact-IsValid a.id marked marked-IsQuietArtifact)
        (λ _. Keeps-pure tt))
      (λ _. mark_evidence-IsValid names artifacts)

lift-IsValid : {A : Type 0} (r : Result A) → Keeps IsValid (lift r)
lift-IsValid (ok a) = record { at = λ s h. h }
lift-IsValid (err e) = record { at = λ s h. tt }

conclude-IsValid :
    (spec : ComputeTaskSpec) (artifacts : List Artifact) (reasons : List Reason)
    → Keeps IsValid (conclude spec artifacts reasons)
unfolding conclude
conclude-IsValid spec artifacts reasons = search (keeps_rules, mark_evidence-IsValid)

judge-IsValid :
    (codec : Codec) (task : Task) (spec : ComputeTaskSpec) (job : ComputeJob)
    → Keeps IsValid (judge codec task spec job)
unfolding judge
judge-IsValid codec task spec job =
    search (keeps_rules, select-IsValid, lift-IsValid, conclude-IsValid) depth 12

judge_latest-IsValid :
    (codec : Codec) (task : Task) (spec : ComputeTaskSpec) (job : Option ComputeJob)
    → Keeps IsValid (judge_latest codec task spec job)
unfolding judge_latest
judge_latest-IsValid codec task spec none = Keeps-pure _
judge_latest-IsValid codec task spec (some job) = judge-IsValid codec task spec job

pub validate_compute_task-IsValid :
    (codec : Codec) (id : String) → Keeps IsValid (validate_compute_task codec id)
unfolding validate_compute_task
validate_compute_task-IsValid codec id =
    search (keeps_rules, select-IsValid, the_task-IsValid, judge_latest-IsValid) depth 12
