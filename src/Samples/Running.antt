-- ===== src/Samples/Running.antt =====
-- The theorems on the controller's loop, the store and the polls, applied to a session with a Task to
-- dispatch and to small files.
use semi_automated_research.Base.{
  String, ◌≡◌, refl, ◌⊎◌, none, some, false, not, List, [], ◌∷◌, arith, ◌==◌, string_eq, nat_eq,
  any, length, if◌then◌else◌,
}
use semi_automated_research.Base.Json.{
  ℤ, pos, Json, Fields, infinity, float, int, arr, obj, nil, cons, empty, field,
}
use semi_automated_research.Base.Exec.{Result, ok, err, pure, value_error, ◌>>=◌}
use semi_automated_research.Domain.Resource.{ArtifactIntegrityStatus}
use semi_automated_research.Db.Models.{Artifact}
use semi_automated_research.Compute.Codec.{Codec, parsed}
use semi_automated_research.Compute.Effects.{ProviderOps, Providers}
use semi_automated_research.Invariant.{IsValid}
use semi_automated_research.World.{Files, World}
use semi_automated_research.Artifacts.{Storage, keep_content, copy_in, copied_or_checked}
use semi_automated_research.Artifacts.Content.{IsKept, keep_content_lem}
use semi_automated_research.Controller.{Settings, tick, run_until_idle}
use semi_automated_research.Controller.Valid.{tick-IsValid}
use semi_automated_research.Controller.Idle.{Ended, run_until_idle_ends}
use semi_automated_research.Validators.Reasons.{contains_nonfinite}
use semi_automated_research.Validators.Finite.{floats, is_finite, contains_nonfinite_lem}
use semi_automated_research.Compute.Protocol.{ComputeJobView, JobObservation}
use semi_automated_research.Compute.Local.Poll.{
  Python, Seen, Signal, exited, exit_code_in, poll, standing, read_delta, observation,
}
use semi_automated_research.Compute.Local.Poll.Observed.{is_success, Reports, poll_sound}
use semi_automated_research.Domain.ComputeStatus.{ComputeExecutionStatus}
use semi_automated_research.Domain.Observation.{FailureClass}
use semi_automated_research.Reconciler.{job_view}
use semi_automated_research.Samples.{job_1}
use semi_automated_research.Samples.Linked.{linked, linked-IsValid}
use semi_automated_research.Samples.Routing.{gpu_spec, machines}
use semi_automated_research.Samples.Submitting.{job, host}

-- A provider that launches every job under its key, and whose polls raise.
abbrev pub quick : ProviderOps (List String)
quick = record {
  prepare = λ spec resource_class. pure job;
  submit = λ prepared launched. (ok prepared.submission_key, prepared.submission_key ∷ launched);
  reconcile_submission = λ key. pure none;
  poll = λ view launched. (err value_error, launched);
  collect = λ view. pure [];
}

abbrev pub providers : Providers (List String)
providers = record { registry = λ launched. machines; ops = λ id. quick }

abbrev codec : Codec
codec = record {
  model_validate = λ d. some (gpu_spec []);
  dump_spec = λ spec. empty;
  dump_snapshot = λ snapshot. empty;
  load = λ uri. parsed (int (pos 0));
}

-- The hash of a content is a letter for the number of its bytes.
abbrev pub storage : Storage
storage = record {
  workspace_root = "/srv";
  sha256 = λ bytes. if length bytes == 2 then "two" else "many";
  pid = "7";
  copied = λ n bytes. bytes;
  guess_type = λ name. none;
  resolve = λ path. path;
  name = λ path. path;
}

abbrev pub settings : Settings
settings = record {
  lease = record { controller_id = "controller_1"; lease_seconds = 60 };
  storage = storage;
  codec = codec;
  poll_interval = 100000;
  repr = λ code. "?";
}

abbrev pub world : World (List String)
world = record { session = linked; files = record { tree = []; copies = 0 }; outside = [] }

tick-IsValid_example : IsValid (tick providers settings world).1.session
tick-IsValid_example = tick-IsValid providers settings world linked-IsValid

run_until_idle_ends_example : Ended (run_until_idle providers settings (λ n. n) 3 4 world)
run_until_idle_ends_example =
    run_until_idle_ends providers settings (λ n. n) (λ n. omega arith) 3 4 world (omega arith)

abbrev shelves : Files
shelves = record { tree = ("/jobs/1/run.out", 9 ∷ []) ∷ []; copies = 4 }

abbrev shelved : Files
shelved = record {
  tree = ("/jobs/1/run.out", 9 ∷ []) ∷ ("/srv/prj_1/artifacts/sha256/tw/two", 5 ∷ 6 ∷ []) ∷ [];
  copies = 5;
}

keep_content_lem_example : IsKept storage "prj_1" (5 ∷ 6 ∷ []) shelves 2 shelved
unfolding keep_content copied_or_checked copy_in ◌>>=◌
keep_content_lem_example = keep_content_lem storage "prj_1" (5 ∷ 6 ∷ []) shelves 2 shelved refl

abbrev pub log_artifact : Artifact
log_artifact = record {
  id = "art_1";
  project_id = "prj_1";
  task_id = some "tsk_1";
  kind = "LOG";
  logical_name = "run.out";
  version = 4;
  storage_backend = "local_cas";
  uri = "/srv/prj_1/artifacts/sha256/tw/two";
  mime_type = none;
  size_bytes = 2;
  sha256 = "two";
  producer_type = "COMPUTE_JOB";
  producer_ref_id = "job_1";
  parent_artifact_id = none;
  integrity_status = ArtifactIntegrityStatus.verified;
  schema_name = none;
  evidence_eligible = false;
  metadata_json = empty;
  created_at = 5;
  verified_at = some 5;
}

abbrev metrics : Json
metrics = arr (cons (obj (field "loss" (float infinity) empty)) nil)

contains_nonfinite_lem_example :
    contains_nonfinite metrics ≡ any (λ x. not (is_finite x)) (floats metrics)
contains_nonfinite_lem_example = contains_nonfinite_lem metrics

abbrev python : Python
python = record {
  decode = λ bytes. "";
  splitlines = λ text. [];
  loads = λ line. none;
  to_int = λ v. ok (pos 0);
}

abbrev seen : Seen
seen = record {
  now = 9;
  out_file = none;
  error_file = none;
  exit_file = some (ok (field "exit_code" (int (pos 0)) empty));
  submissions = [];
  kill = λ pid. Signal.process_lookup_error;
}

abbrev pub view : ComputeJobView
view = job_view job_1

abbrev ended_run : JobObservation
ended_run = observation host python seen view ([], pos 0) ([], pos 0) (exited (pos 0))

poll_sound_example :
    ((d : Result Fields) × (code : ℤ) × (seen.exit_file ≡ some d)
      × (exit_code_in python d ≡ ok code)
      × Reports view
          (if is_success code
            then ComputeExecutionStatus.succeeded
            else ComputeExecutionStatus.failed)
          (if is_success code then FailureClass.none else FailureClass.code)
          (some code)
          ended_run)
    ⊎ ((seen.exit_file ≡ none)
        × Reports view ComputeExecutionStatus.failed FailureClass.infrastructure none ended_run)
unfolding poll standing read_delta
poll_sound_example = poll_sound host python seen view ended_run refl
