-- ===== src/Compute/Local/Poll/Observed.antt =====
-- What an observation of `LocalProvider.poll` says of the run.
use mathlib.Core.Path.{subst}
use semi_automated_research.Base.{
  ℕ, zero, suc, ◌≡◌, refl, ◌⊎◌, inl, inr, Option, none, some, Bool, true, false, ◌&&◌, ltb,
  Option-cases, Bool-cases, if◌then◌else◌,
}
use semi_automated_research.Base.Json.{ℤ, pos, negsuc, Fields, get}
use semi_automated_research.Base.Dict.{lookup}
use semi_automated_research.Base.Exec.{Result, Result-cases, ok, err}
use semi_automated_research.Domain.ComputeStatus.{ComputeExecutionStatus}
use semi_automated_research.Domain.Observation.{ObservationStatus, FailureClass}
use semi_automated_research.Compute.Protocol.{ComputeJobView, JobObservation}
use semi_automated_research.Compute.Local.Submission.{Host, Submission, submission_path}
use semi_automated_research.Compute.Local.Poll.{
  Signal, delivered, process_lookup_error, permission_error, is_alive, Python, Seen, Standing,
  exited, without_exit, pid_in, process_alive, exit_code_in, standing, observe, offset_in, poll,
}

module _ (host : Host) (python : Python) (seen : Seen) (job : ComputeJobView) where
  -- What an observation says of the run, beside what was read of the logs.
  pub record Says (s : Standing) (o : JobObservation) : Type 0 where
    pub own : o.compute_job_id ≡ job.id
    pub fresh : o.observation_status ≡ ObservationStatus.fresh
    pub status : o.execution_status ≡ s.status
    pub failure : o.failure_class ≡ s.failure
    pub exit_code : o.exit_code ≡ s.exit_code

  abbrev SaysAfter : Result Standing → Result JobObservation → Type 0
  SaysAfter r (err e) = Unit
  SaysAfter (err e) (ok o) = ⊥
  SaysAfter (ok s) (ok o) = Says s o

  observe-SaysAfter :
      (out error : Result ℤ) (r : Result Standing)
      → SaysAfter r (observe host python seen job out error r)
  observe-SaysAfter (err e) error r = tt
  observe-SaysAfter (ok out) (err e) r = tt
  observe-SaysAfter (ok out) (ok error) (err e) = tt
  observe-SaysAfter (ok out) (ok error) (ok s) = record {
    own = refl;
    fresh = refl;
    status = refl;
    failure = refl;
    exit_code = refl;
  }

-- The exit codes that are 0.
abbrev pub is_success : ℤ → Bool
is_success (pos zero) = true
is_success _ = false

-- The process that the record names is there: a signal finds it, whoever owns it.
abbrev pub is_found : Signal → Bool
is_found process_lookup_error = false
is_found _ = true

abbrev pub is_there : (ℕ → Signal) → Option Submission → Bool
is_there kill none = false
is_there kill (some r) = elim r.pid [ none ↦ false | some pid ↦ ltb 0 pid && is_found (kill pid) ]

found-alive : (answer : Signal) → is_alive answer ≡ is_found answer
found-alive delivered = refl
found-alive process_lookup_error = refl
found-alive permission_error = refl

running-alive :
    (kill : ℕ → Signal) (r : Option Submission) → process_alive kill (pid_in r) ≡ is_there kill r
running-alive kill none = refl
running-alive kill (some r) = elim (Option-cases r.pid) [
  | inl missing ↦ rw missing refl
  | inr (pid, named) ↦
      rw (named, found-alive (kill pid))
        (elim (Bool-cases (ltb 0 pid)) [
          | inl above ↦ rw above refl
          | inr not_above ↦ rw not_above refl
        ])
]

-- An observation of the job, FRESH, with this status, this class of failure and this exit code.
pub record Reports (job : ComputeJobView) (status : ComputeExecutionStatus) (failure : FailureClass)
    (exit_code : Option ℤ) (o : JobObservation) : Type 0 where
  pub own : o.compute_job_id ≡ job.id
  pub fresh : o.observation_status ≡ ObservationStatus.fresh
  pub has_status : o.execution_status ≡ status
  pub has_failure : o.failure_class ≡ failure
  pub has_exit_code : o.exit_code ≡ exit_code

module _ (host : Host) (python : Python) (seen : Seen) (job : ComputeJobView) where
  code-Reports :
      (code : ℤ) (o : JobObservation)
      → Says host python seen job (exited code) o
      → Reports job
          (if is_success code
            then ComputeExecutionStatus.succeeded
            else ComputeExecutionStatus.failed)
          (if is_success code then FailureClass.none else FailureClass.code)
          (some code)
          o
  code-Reports (pos zero) o s = record {
    own = s.own;
    fresh = s.fresh;
    has_status = s.status;
    has_failure = s.failure;
    has_exit_code = s.exit_code;
  }
  code-Reports (pos (suc n)) o s = record {
    own = s.own;
    fresh = s.fresh;
    has_status = s.status;
    has_failure = s.failure;
    has_exit_code = s.exit_code;
  }
  code-Reports (negsuc n) o s = record {
    own = s.own;
    fresh = s.fresh;
    has_status = s.status;
    has_failure = s.failure;
    has_exit_code = s.exit_code;
  }

  missing-Reports :
      (alive : Bool) (o : JobObservation)
      → Says host python seen job (without_exit alive) o
      → Reports job
          (if alive then ComputeExecutionStatus.running else ComputeExecutionStatus.failed)
          (if alive then FailureClass.none else FailureClass.infrastructure)
          none
          o
  missing-Reports true o s = record {
    own = s.own;
    fresh = s.fresh;
    has_status = s.status;
    has_failure = s.failure;
    has_exit_code = s.exit_code;
  }
  missing-Reports false o s = record {
    own = s.own;
    fresh = s.fresh;
    has_status = s.status;
    has_failure = s.failure;
    has_exit_code = s.exit_code;
  }

  abbrev filed : Option Submission
  filed = lookup (submission_path host job.submission_key) seen.submissions

  -- An observation that `poll` returns is FRESH and of the job. Where `exit.json` was there it bears the
  -- exit code, and is SUCCEEDED without failure for 0, and FAILED with the class CODE for another. Where
  -- it was not there it bears no exit code, and is RUNNING without failure if a signal finds the process
  -- of the submission's record, and FAILED with the class INFRASTRUCTURE if not.
  pub poll_sound :
      (o : JobObservation)
      → poll host python seen job ≡ ok o
      → ((d : Result Fields) × (code : ℤ) × (seen.exit_file ≡ some d)
          × (exit_code_in python d ≡ ok code)
          × Reports job
              (if is_success code
                then ComputeExecutionStatus.succeeded
                else ComputeExecutionStatus.failed)
              (if is_success code then FailureClass.none else FailureClass.code)
              (some code)
              o)
        ⊎ ((seen.exit_file ≡ none)
            × Reports job
                (if is_there seen.kill
                    (lookup (submission_path host job.submission_key) seen.submissions)
                  then ComputeExecutionStatus.running
                  else ComputeExecutionStatus.failed)
                (if is_there seen.kill
                    (lookup (submission_path host job.submission_key) seen.submissions)
                  then FailureClass.none
                  else FailureClass.infrastructure)
                none
                o)
  unfolding poll standing
  poll_sound o h =
      let says =
        observe-SaysAfter host python seen job (offset_in python (get "stdout" job.log_cursor))
          (offset_in python (get "stderr" job.log_cursor))
          (standing host python seen job seen.exit_file) in
      let told : SaysAfter host python seen job (standing host python seen job seen.exit_file)
          (ok o) =
        rw h at says in
      let Told : Option (Result Fields) → Type 0 =
        λ f. SaysAfter host python seen job (standing host python seen job f) (ok o) in
      elim (Option-cases seen.exit_file) [
        | inl missing ↦ inr (
          missing,
          missing-Reports (is_there seen.kill filed) o (
              subst (λ b. Says host python seen job (without_exit b) o)
                (running-alive seen.kill filed) (subst Told missing told)),
        )
        | inr (d, there) ↦
            let by_code = subst Told there told in
            elim (Result-cases (exit_code_in python d)) [
              | inl (code, read) ↦
                  inl (d, code, there, read, code-Reports code o (rw read at by_code))
              | inr (e, refused) ↦ absurd (rw refused at by_code)
            ]
      ]
