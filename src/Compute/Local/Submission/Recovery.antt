-- ===== src/Compute/Local/Submission/Recovery.antt =====
-- What `LocalProvider.submit` and `reconcile_submission` do after the process was stopped at each
-- boundary between the steps of a submission.
use semi_automated_research.Base.{
  ℕ, ◌+◌, String, ◌≡◌, refl, inl, inr, none, some, true, false, [], ◌∷◌, ◌++◌, append_assoc, ◌==◌,
  string_eq, f_string, Bool-cases, Option-cases, if◌then◌else◌,
}
use semi_automated_research.Base.Dict.{lookup}
use semi_automated_research.Base.Exec.{Result, ok, err, runtime_error, pure, continue, ◌>>=◌}
use semi_automated_research.Compute.Protocol.{PreparedJob}
use semi_automated_research.Compute.Local.Submission.{
  Submission, Host, Machine, reserved, reserve, process_of, launch, run_reserved, submit,
  launched_id, reconcile_submission,
}
use semi_automated_research.Compute.Local.Submission.Steps.{
  key_file, reserving, reserve_found, reserve_clash, reserve_fresh, Stands, put-Stands, StandsAfter,
  reserve-StandsAfter, reserve_again, launching, launched, confirming, launch-eq, run_reserved-eq,
  submit_reserved,
}

module _ (host : Host) (p : PreparedJob) where
  -- Stopped after its record is reserved, or found, a submission that is made again does what the
  -- uninterrupted submission would have done.
  pub reserve_resumes :
      (m after : Machine) (r : Submission)
      → reserve host p m ≡ (ok r, after)
      → submit host p after ≡ submit host p m
  unfolding submit ◌>>=◌
  reserve_resumes m after r h = rw (h, reserve_again host p m after r h) refl

  -- A submission under a key without a record, whose process starts, returns the job id that it has
  -- drawn. It has launched one process, and its record says LAUNCHED and bears the id.
  pub submit_fresh :
      (m : Machine) (pid : ℕ)
      → lookup (key_file host p) m.files ≡ none
      → host.popen (m.calls + 2) (process_of host p) ≡ some pid
      → (submit host p m ≡ (
        ok (f_string ("local-" ∷ host.uuid4_hex m.calls ∷ [])),
        confirming host p (reserved host p m.calls) pid (launching host p (reserving host p m)),
      ))
        × ((submit host p m).1.processes ≡ m.processes ++ process_of host p ∷ [])
  submit_fresh m pid missing started =
      let done =
        submit_reserved host p m (reserving host p m) (reserved host p m.calls) pid
          (reserve_fresh host p m missing) refl started in
      (done, rw done refl)

  -- Where a record is reserved and `Popen` succeeds both times, a submission that was stopped
  -- between `Popen` and the last step and is made again launches a second process, and returns the
  -- id that was reserved.
  pub launch_repeats :
      (m after : Machine) (r : Submission) (pid again : ℕ)
      → reserve host p m ≡ (ok r, after)
      → (r.status == "LAUNCHED") ≡ false
      → host.popen after.calls (process_of host p) ≡ some pid
      → host.popen (after.calls + 1) (process_of host p) ≡ some again
      → (launch host p after ≡ (ok pid, launching host p after))
        × ((submit host p (launching host p after)).0 ≡ ok r.external_job_id)
        × ((submit host p (launching host p after)).1.processes
            ≡ after.processes ++ process_of host p ∷ process_of host p ∷ [])
  launch_repeats m after r pid again h waiting started restarted =
      let stands : Stands host p r after = rw h at (reserve-StandsAfter host p m) in
      let done =
        submit_reserved host p (launching host p after) (launching host p after) r again
          (reserve_found host p (launching host p after) r stands.filed stands.keyed) waiting
          restarted in
      (launch-eq host p after pid started, rw done refl, rw done (append_assoc after.processes _ _))

  -- The job is LAUNCHED under the key, with the id.
  record IsLaunched (id : String) (m : Machine) : Type 0 where
    entry : Submission
    stands : Stands host p entry m
    marked : (entry.status == "LAUNCHED") ≡ true
    named : entry.external_job_id ≡ id

  abbrev LaunchedAfter : Result String × Machine → Type 0
  LaunchedAfter (ok id, m) = IsLaunched id m
  LaunchedAfter (err e, m) = Unit

  run_reserved-LaunchedAfter :
      (m : Machine) (r : Submission) → Stands host p r m → LaunchedAfter (run_reserved host p r m)
  unfolding run_reserved launch ◌>>=◌
  run_reserved-LaunchedAfter m r stands =
      elim (Option-cases (host.popen m.calls (process_of host p))) [
        | inl refused ↦ rw refused tt
        | inr (pid, started) ↦ rw (run_reserved-eq host p m r pid started) (record {
          entry = launched host p r pid (launching host p m);
          stands =
              put-Stands host p (launched host p r pid (launching host p m)) (launching host p m)
                (m.calls + 1 + 1) stands.keyed;
          marked = refl;
          named = refl;
        })
      ]

  from_reserve-LaunchedAfter :
      (x : Result Submission) (m : Machine)
      → StandsAfter host p (x, m)
      → LaunchedAfter (
          continue x
            (λ r. if r.status == "LAUNCHED" then pure r.external_job_id else run_reserved host p r)
            m)
  unfolding ◌>>=◌
  from_reserve-LaunchedAfter (ok r) m stands = elim (Bool-cases (r.status == "LAUNCHED")) [
    | inl done ↦ rw done (record { entry = r; stands = stands; marked = done; named = refl })
    | inr waiting ↦ rw waiting (run_reserved-LaunchedAfter m r stands)
  ]
  from_reserve-LaunchedAfter (err e) m stands = tt

  submit-LaunchedAfter : (m : Machine) → LaunchedAfter (submit host p m)
  unfolding submit ◌>>=◌
  submit-LaunchedAfter m =
      from_reserve-LaunchedAfter (reserve host p m).0 (reserve host p m).1
        (reserve-StandsAfter host p m)

  submit-same : (m : Machine) (id : String) → IsLaunched id m → submit host p m ≡ (ok id, m)
  unfolding submit ◌>>=◌
  submit-same m id h =
      rw (reserve_found host p m h.entry h.stands.filed h.stands.keyed, h.marked, h.named) refl

  reconcile-same :
      (m : Machine) (id : String)
      → IsLaunched id m
      → reconcile_submission host p.submission_key m ≡ (ok (some id), m)
  unfolding reconcile_submission ◌>>=◌
  reconcile-same m id h = rw (h.stands.filed, launched_id, h.stands.keyed, h.marked, h.named) refl

  -- Once `submit` has returned a job id, submitting again returns the same id and changes nothing, and
  -- `reconcile_submission` confirms the id.
  pub submit_once :
      (m after : Machine) (id : String)
      → submit host p m ≡ (ok id, after)
      → (submit host p after ≡ (ok id, after))
        × (reconcile_submission host p.submission_key after ≡ (ok (some id), after))
  submit_once m after id h =
      let done : IsLaunched id after = rw h at (submit-LaunchedAfter m) in
      (submit-same after id done, reconcile-same after id done)

  -- While the record of a key is there and does not say LAUNCHED, `reconcile_submission` finds no
  -- job, also after `Popen`, and changes nothing.
  pub reconcile_unconfirmed :
      (m after : Machine) (r : Submission)
      → reserve host p m ≡ (ok r, after)
      → (r.status == "LAUNCHED") ≡ false
      → (reconcile_submission host p.submission_key after ≡ (ok none, after))
        × (reconcile_submission host p.submission_key (launching host p after)
            ≡ (ok none, launching host p after))
  unfolding reconcile_submission launched_id ◌>>=◌
  reconcile_unconfirmed m after r h waiting =
      let stands : Stands host p r after = rw h at (reserve-StandsAfter host p m) in
      (rw (stands.filed, stands.keyed, waiting) refl, rw (stands.filed, stands.keyed, waiting) refl)

  -- Where the file of the key holds a record of another key, `submit` and `reconcile_submission` raise
  -- `RuntimeError` and change nothing.
  pub submit_clash :
      (m : Machine) (r : Submission)
      → lookup (key_file host p) m.files ≡ some r
      → (r.submission_key == p.submission_key) ≡ false
      → (submit host p m ≡ (err runtime_error, m))
        × (reconcile_submission host p.submission_key m ≡ (err runtime_error, m))
  unfolding submit reconcile_submission launched_id ◌>>=◌
  submit_clash m r found other =
      (rw (reserve_clash host p m r found other) refl, rw (found, other) refl)
