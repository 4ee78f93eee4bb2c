-- ===== src/Compute/Local/Submission/Steps.antt =====
-- The steps of `LocalProvider.submit`, one by one: what each leaves on the machine.
use semi_automated_research.Base.{
  ℕ, ◌+◌, String, ◌≡◌, refl, ◌∙◌, inl, inr, none, some, true, false, [], ◌∷◌, ◌++◌, ◌==◌, string_eq,
  text_eq_refl, Bool-cases, Option-cases,
}
use semi_automated_research.Base.Dict.{lookup, put, lookup-put}
use semi_automated_research.Base.Exec.{Result, ok, err, runtime_error, ◌>>=◌}
use semi_automated_research.Compute.Protocol.{PreparedJob}
use semi_automated_research.Compute.Local.Submission.{
  Submission, Host, Machine, submission_path, reserved, reserve, process_of, launch, confirm,
  run_reserved, submit,
}

module _ (host : Host) (p : PreparedJob) where
  abbrev pub key_file : String
  key_file = submission_path host p.submission_key

  -- The machine that `reserve` leaves where there was no record.
  abbrev pub reserving : Machine → Machine
  reserving m = record m {
    calls = m.calls + 2;
    files = put key_file (reserved host p m.calls) m.files;
  }

  pub reserve_found :
      (m : Machine) (r : Submission)
      → lookup key_file m.files ≡ some r
      → (r.submission_key == p.submission_key) ≡ true
      → reserve host p m ≡ (ok r, m)
  unfolding reserve ◌>>=◌
  reserve_found m r found same = rw (found, same) refl

  pub reserve_clash :
      (m : Machine) (r : Submission)
      → lookup key_file m.files ≡ some r
      → (r.submission_key == p.submission_key) ≡ false
      → reserve host p m ≡ (err runtime_error, m)
  unfolding reserve ◌>>=◌
  reserve_clash m r found other = rw (found, other) refl

  pub reserve_fresh :
      (m : Machine)
      → lookup key_file m.files ≡ none
      → reserve host p m ≡ (ok (reserved host p m.calls), reserving m)
  unfolding reserve ◌>>=◌
  reserve_fresh m missing = rw missing refl

  -- The record stands in its file, with its key.
  pub record Stands (r : Submission) (m : Machine) : Type 0 where
    pub filed : lookup key_file m.files ≡ some r
    pub keyed : (r.submission_key == p.submission_key) ≡ true

  pub put-Stands :
      (r : Submission) (m : Machine) (calls : ℕ)
      → (r.submission_key == p.submission_key) ≡ true
      → Stands r (record m { calls = calls; files = put key_file r m.files })
  put-Stands r m calls same = record {
    filed = lookup-put key_file key_file r m.files ∙ rw (text_eq_refl key_file) refl;
    keyed = same;
  }

  -- What a call that returns a record leaves.
  abbrev pub StandsAfter : Result Submission × Machine → Type 0
  StandsAfter (ok r, m) = Stands r m
  StandsAfter (err e, m) = Unit

  pub reserve-StandsAfter : (m : Machine) → StandsAfter (reserve host p m)
  reserve-StandsAfter m = elim (Option-cases (lookup key_file m.files)) [
    | inl missing ↦
        rw (reserve_fresh m missing)
          (put-Stands (reserved host p m.calls) m (m.calls + 2) (text_eq_refl p.submission_key))
    | inr (r, found) ↦ elim (Bool-cases (r.submission_key == p.submission_key)) [
      | inl same ↦ rw (reserve_found m r found same) (record { filed = found; keyed = same })
      | inr other ↦ rw (reserve_clash m r found other) tt
    ]
  ]

  pub reserve_again :
      (m after : Machine) (r : Submission)
      → reserve host p m ≡ (ok r, after)
      → reserve host p after ≡ (ok r, after)
  reserve_again m after r h =
      let stands : Stands r after = rw h at (reserve-StandsAfter m) in
      reserve_found after r stands.filed stands.keyed

  -- The machine after `Popen`, and the record and the machine after the last step.
  abbrev pub launching : Machine → Machine
  launching m = record m { calls = m.calls + 1; processes = m.processes ++ process_of host p ∷ [] }

  abbrev pub launched : Submission → ℕ → Machine → Submission
  launched r pid m = record r {
    status = "LAUNCHED";
    pid = some pid;
    launched_at = some (host.clock m.calls);
  }

  abbrev pub confirming : Submission → ℕ → Machine → Machine
  confirming r pid m = record m {
    calls = m.calls + 1;
    files = put key_file (launched r pid m) m.files;
  }

  pub launch-eq :
      (m : Machine) (pid : ℕ)
      → host.popen m.calls (process_of host p) ≡ some pid
      → launch host p m ≡ (ok pid, launching m)
  unfolding launch ◌>>=◌
  launch-eq m pid started = rw started refl

  pub run_reserved-eq :
      (m : Machine) (r : Submission) (pid : ℕ)
      → host.popen m.calls (process_of host p) ≡ some pid
      → run_reserved host p r m ≡ (ok r.external_job_id, confirming r pid (launching m))
  unfolding run_reserved confirm ◌>>=◌
  run_reserved-eq m r pid started = rw (launch-eq m pid started) refl

  pub submit_reserved :
      (m after : Machine) (r : Submission) (pid : ℕ)
      → reserve host p m ≡ (ok r, after)
      → (r.status == "LAUNCHED") ≡ false
      → host.popen after.calls (process_of host p) ≡ some pid
      → submit host p m ≡ (ok r.external_job_id, confirming r pid (launching after))
  unfolding submit ◌>>=◌
  submit_reserved m after r pid h waiting started =
      rw (h, waiting) (run_reserved-eq after r pid started)
