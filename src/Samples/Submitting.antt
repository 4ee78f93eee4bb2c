-- ===== src/Samples/Submitting.antt =====
-- The theorems on submissions, applied to a machine with one submission file of another job.
use semi_automated_research.Base.{◌+◌, ◌≡◌, refl, none, some, [], ◌∷◌, string_eq}
use semi_automated_research.Base.Json.{empty}
use semi_automated_research.Base.Exec.{ok, err, runtime_error, ◌>>=◌}
use semi_automated_research.Compute.Protocol.{PreparedJob}
use semi_automated_research.Compute.Local.Submission.{
  Submission, Host, Machine, reserved, reserve, process_of, launch, run_reserved, confirm, submit,
  reconcile_submission,
}
use semi_automated_research.Compute.Local.Submission.Steps.{reserving, launching, confirming}
use semi_automated_research.Compute.Local.Submission.Recovery.{
  reserve_resumes, submit_fresh, launch_repeats, submit_once, reconcile_unconfirmed, submit_clash,
}

-- Each text is its own digest.
abbrev pub host : Host
host = record {
  hexdigest = λ key. key;
  executable = "python";
  environ = ("HOME", "/root") ∷ [];
  uuid4_hex = λ n. "0";
  clock = λ n. n;
  popen = λ n process. some (n + 100);
}

abbrev pub job : PreparedJob
job = record {
  provider_id = "local";
  submission_key = "key-1";
  resource_class = "local_cpu";
  workdir = "/jobs/1";
  command = "train" ∷ [];
  env = ("SEED", "1") ∷ [];
  outputs = [];
  metadata = empty;
}

abbrev other_record : Submission
other_record = record {
  submission_key = "key-0";
  external_job_id = "local-9";
  workdir = "/jobs/0";
  status = "LAUNCHED";
  reserved_at = 0;
  pid = some 7;
  launched_at = some 1;
}

abbrev pub machine : Machine
machine = record { calls = 2; files = ("key-0.json", other_record) ∷ []; processes = [] }

-- The file of `key-1` holds the record of `key-0`.
abbrev clashing : Machine
clashing = record { calls = 2; files = ("key-1.json", other_record) ∷ []; processes = [] }

abbrev pub finished : Machine
finished = (submit host job machine).1

submit_once_example :
    (submit host job finished ≡ (ok "local-0", finished))
    × (reconcile_submission host "key-1" finished ≡ (ok (some "local-0"), finished))
unfolding submit reserve run_reserved launch confirm ◌>>=◌
submit_once_example = submit_once host job machine finished "local-0" refl

reserve_resumes_example : submit host job (reserving host job machine) ≡ submit host job machine
unfolding reserve ◌>>=◌
reserve_resumes_example =
    reserve_resumes host job machine (reserving host job machine) (reserved host job 2) refl

submit_fresh_example :
    (submit host job machine ≡ (
      ok "local-0",
      confirming host job
          (reserved host job 2)
          104
          (launching host job (reserving host job machine)),
    ))
    × ((submit host job machine).1.processes ≡ process_of host job ∷ [])
submit_fresh_example = submit_fresh host job machine 104 refl refl

launch_repeats_example :
    (launch host job (reserving host job machine)
      ≡ (ok 104, launching host job (reserving host job machine)))
    × ((submit host job (launching host job (reserving host job machine))).0 ≡ ok "local-0")
    × ((submit host job (launching host job (reserving host job machine))).1.processes
        ≡ process_of host job ∷ process_of host job ∷ [])
unfolding reserve ◌>>=◌
launch_repeats_example =
    launch_repeats host job machine (reserving host job machine) (reserved host job 2) 104 105 refl
      refl refl refl

reconcile_unconfirmed_example :
    (reconcile_submission host "key-1" (reserving host job machine)
      ≡ (ok none, reserving host job machine))
    × (reconcile_submission host "key-1" (launching host job (reserving host job machine))
        ≡ (ok none, launching host job (reserving host job machine)))
unfolding reserve ◌>>=◌
reconcile_unconfirmed_example =
    reconcile_unconfirmed host job machine (reserving host job machine) (reserved host job 2) refl
      refl

submit_clash_example :
    (submit host job clashing ≡ (err runtime_error, clashing))
    × (reconcile_submission host "key-1" clashing ≡ (err runtime_error, clashing))
submit_clash_example = submit_clash host job clashing other_record refl refl
