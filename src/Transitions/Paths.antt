-- ===== src/Transitions/Paths.antt =====
-- What the two transition tables allow, over every sequence of changes.
use semi_automated_research.Base.{
  ℕ, ◌≤◌, ◌<◌, String, ◌≡◌, refl, Bool, true, some, List, [], ◌∷◌, arith, ◌&&◌, contains, &&-true,
  length,
}
use semi_automated_research.Domain.TaskStatus.{
  TaskStatus, task_status_eq, pending, ready, running, verifying, succeeded, failed, blocked,
  cancelled, skipped,
}
use semi_automated_research.Domain.ComputeStatus.{
  ComputeExecutionStatus, compute_execution_status_eq,
}
use semi_automated_research.Transitions.Tables.{
  task_transitions, compute_transitions, task_event_type, compute_event_type,
}

-- Each status of the list may follow the one before it.
abbrev pub follows_task : TaskStatus → List TaskStatus → Bool
follows_task s [] = true
follows_task s (t ∷ ts) = contains t (task_transitions s) && follows_task t ts

abbrev pub follows_job : ComputeExecutionStatus → List ComputeExecutionStatus → Bool
follows_job s [] = true
follows_job s (t ∷ ts) = contains t (compute_transitions s) && follows_job t ts

abbrev pub last_from {ℓ} : {A : Type ℓ} → A → List A → A
last_from s [] = s
last_from s (t ∷ ts) = last_from t ts

-- The first list is got from the second by leaving elements out.
pub data Within {ℓ} {A : Type ℓ} : List A → List A → Type ℓ where
  stop : {xs : List A} → Within [] xs
  skip : {ns xs : List A} (x : A) → Within ns xs → Within ns (x ∷ xs)
  take : {ns xs : List A} (n : A) → Within ns xs → Within (n ∷ ns) (n ∷ xs)

Within-tail {ℓ} : {A : Type ℓ} {n : A} {ns xs : List A} → Within (n ∷ ns) xs → Within ns xs
Within-tail (skip x w) = skip x (Within-tail w)
Within-tail (take n w) = skip n w

-- What a Task has still to go through before it succeeds.
ahead : TaskStatus → List TaskStatus
ahead pending = ready ∷ running ∷ verifying ∷ succeeded ∷ []
ahead ready = running ∷ verifying ∷ succeeded ∷ []
ahead running = verifying ∷ succeeded ∷ []
ahead verifying = succeeded ∷ []
ahead succeeded = []
ahead _ = ready ∷ running ∷ verifying ∷ succeeded ∷ []

step-ahead :
    (s t : TaskStatus) (ts : List TaskStatus)
    → contains t (task_transitions s) ≡ true
    → Within (ahead t) ts
    → Within (ahead s) (t ∷ ts)
unfolding ahead
step-ahead pending ready ts h w = take ready w
step-ahead pending blocked ts h w = skip blocked w
step-ahead pending cancelled ts h w = skip cancelled w
step-ahead pending skipped ts h w = skip skipped w
step-ahead ready running ts h w = take running w
step-ahead ready blocked ts h w = skip blocked (Within-tail w)
step-ahead ready cancelled ts h w = skip cancelled (Within-tail w)
step-ahead running verifying ts h w = take verifying w
step-ahead running failed ts h w = skip failed (Within-tail (Within-tail w))
step-ahead running blocked ts h w = skip blocked (Within-tail (Within-tail w))
step-ahead running cancelled ts h w = skip cancelled (Within-tail (Within-tail w))
step-ahead verifying succeeded ts h w = take succeeded w
step-ahead verifying failed ts h w = skip failed (Within-tail (Within-tail (Within-tail w)))
step-ahead verifying blocked ts h w = skip blocked (Within-tail (Within-tail (Within-tail w)))
step-ahead failed ready ts h w = take ready w
step-ahead failed blocked ts h w = skip blocked w
step-ahead failed cancelled ts h w = skip cancelled w
step-ahead blocked ready ts h w = take ready w
step-ahead blocked cancelled ts h w = skip cancelled w
step-ahead _ _ ts h w = cc

succeeds-ahead :
    (s : TaskStatus) (ts : List TaskStatus)
    → follows_task s ts ≡ true
    → last_from s ts ≡ succeeded
    → Within (ahead s) ts
unfolding ahead
succeeds-ahead s [] h l = rw l stop
succeeds-ahead s (t ∷ ts) h l =
    let (legal, rest) = &&-true (contains t (task_transitions s)) (follows_task t ts) h in
    step-ahead s t ts legal (succeeds-ahead t ts rest l)

-- A Task that begins PENDING and ends SUCCEEDED, by legal changes, has gone through READY, RUNNING,
-- VERIFYING and SUCCEEDED in that order.
pub succeeds_by_verifying :
    (ts : List TaskStatus)
    → follows_task pending ts ≡ true
    → last_from pending ts ≡ succeeded
    → Within (ready ∷ running ∷ verifying ∷ succeeded ∷ []) ts
unfolding ahead
succeeds_by_verifying ts h l = succeeds-ahead pending ts h l

-- How many changes a ComputeJob may still make.
changes_left : ComputeExecutionStatus → ℕ
changes_left ComputeExecutionStatus.created = 5
changes_left ComputeExecutionStatus.submitted = 4
changes_left ComputeExecutionStatus.pending = 3
changes_left ComputeExecutionStatus.running = 2
changes_left ComputeExecutionStatus.collecting = 1
changes_left _ = 0

step-changes_left :
    (s t : ComputeExecutionStatus)
    → contains t (compute_transitions s) ≡ true
    → changes_left t < changes_left s
unfolding changes_left
step-changes_left s t h = ground arith

length-changes_left :
    (s : ComputeExecutionStatus) (ts : List ComputeExecutionStatus)
    → follows_job s ts ≡ true
    → length ts ≤ changes_left s
length-changes_left s [] h = omega arith
length-changes_left s (t ∷ ts) h =
    let (legal, rest) = &&-true (contains t (compute_transitions s)) (follows_job t ts) h in
    omega (arith, step-changes_left s t legal, length-changes_left t ts rest)

-- By legal changes from CREATED a ComputeJob changes its status at most five times.
pub job_changes_bounded :
    (ts : List ComputeExecutionStatus)
    → follows_job ComputeExecutionStatus.created ts ≡ true
    → length ts ≤ 5
unfolding changes_left
job_changes_bounded ts h = length-changes_left ComputeExecutionStatus.created ts h

-- Every status that some change of a Task leads to has an Event type, so that the table is never asked
-- for a missing key.
pub task_event_type_total :
    (s t : TaskStatus)
    → contains t (task_transitions s) ≡ true
    → (e : String) × (task_event_type t ≡ some e)
task_event_type_total s pending h = absurd (ground arith)
task_event_type_total s ready h = (_, refl)
task_event_type_total s _ h = (_, refl)

pub compute_event_type_total :
    (s t : ComputeExecutionStatus)
    → contains t (compute_transitions s) ≡ true
    → (e : String) × (compute_event_type t ≡ some e)
compute_event_type_total s ComputeExecutionStatus.created h = absurd (ground arith)
compute_event_type_total s ComputeExecutionStatus.submitted h = (_, refl)
compute_event_type_total s _ h = (_, refl)
