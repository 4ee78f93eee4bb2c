-- ===== src/Compute/Local/Prepare.antt =====
-- compute/local/provider.py: `LocalProvider.prepare`, which writes down what a job is to run, and
-- `LocalProvider.cancel`, which signals its process. Python's `str`, pydantic's `model_dump`, the offers
-- of the machine and the answers of the operating system are parameters.
use semi_automated_research.Base.{
  ℕ, zero, suc, String, Option, none, some, List, [], ◌∷◌, ◌++◌, ◌==◌, string_eq, ltb, f_string,
  if◌then◌else◌,
}
use semi_automated_research.Base.Json.{Json, Fields, str, empty, field, get}
use semi_automated_research.Base.Dict.{put, lookup}
use semi_automated_research.Base.Exec.{Exec, pure, raise, modify, value_error, io_error, ◌>>◌}
use semi_automated_research.Compute.Protocol.{
  ComputeTaskSpec, PreparedJob, ResourceOffer, ComputeJobView,
}
use semi_automated_research.Compute.Local.Submission.{Host, Submission, submission_path}
use semi_automated_research.Compute.Local.Poll.{
  Signal, delivered, process_lookup_error, permission_error, pid_in,
}

-- `text[:n]`.
abbrev first_chars : ℕ → String → String
first_chars zero s = ""
first_chars (suc n) String.[] = ""
first_chars (suc n) (String.◌∷◌ c s) = String.◌∷◌ c (first_chars n s)

-- What `prepare` asks for beside the specification.
pub record Workshop : Type 0 where
  pub host : Host
  pub jobs_root : String
  pub text : Json → String
  pub model_dump : PreparedJob → Fields

abbrev gpu_env : Workshop → Option Json → List (String × String) → List (String × String)
gpu_env shop none env = env
gpu_env shop (some v) env = put "CUDA_VISIBLE_DEVICES" (shop.text v) env

-- The loop over the offers.
abbrev with_gpu :
    Workshop → String → List (String × String) → List ResourceOffer → List (String × String)
with_gpu shop resource_class env [] = env
with_gpu shop resource_class env (o ∷ offers) =
    with_gpu shop resource_class
      (if o.resource_class == resource_class
        then gpu_env shop (get "gpu_index" o.metadata) env
        else env)
      offers

-- `offers` is what this call of `discover_resources` answers.
module _ (shop : Workshop) (offers : List ResourceOffer) (spec : ComputeTaskSpec)
    (resource_class : String) where
  abbrev workdir : String
  workdir = f_string (
      shop.jobs_root
      ∷ "/"
      ∷ spec.project_id
      ∷ "/"
      ∷ spec.task_id
      ∷ "/"
      ∷ first_chars 16 (shop.host.hexdigest spec.submission_key)
      ∷ [])

  abbrev pub prepared_job : PreparedJob
  prepared_job = record {
    provider_id = "local";
    submission_key = spec.submission_key;
    resource_class = resource_class;
    workdir = workdir;
    command = spec.execution.command ++ spec.execution.argv;
    env = with_gpu shop resource_class spec.execution.env offers;
    outputs = spec.outputs;
    metadata = field "project_id" (str spec.project_id) (field "task_id" (str spec.task_id) empty);
  }

  abbrev pub prepare_command : List String → Exec (List (String × Fields)) PreparedJob
  prepare_command [] = raise value_error
  prepare_command (c ∷ command) = do
    modify (λ files.
        put (f_string (workdir ∷ "/prepared.json" ∷ [])) (shop.model_dump prepared_job) files)
    pure prepared_job

  -- `LocalProvider.prepare`; the state is the JSON files.
  unfoldable pub prepare : Exec (List (String × Fields)) PreparedJob
  prepare = prepare_command spec.execution.command

-- `os.killpg(pid, signal.SIGTERM)`; the state is the list of the groups that were signalled.
abbrev terminate : ℕ → Signal → Exec (List ℕ) (Unit {0})
terminate pid delivered = modify (λ sent. pid ∷ sent)
terminate pid process_lookup_error = pure tt
terminate pid permission_error = raise io_error

-- `LocalProvider.cancel`, over the submission files.
unfoldable pub cancel :
    Host → List (String × Submission) → (ℕ → Signal) → ComputeJobView → Exec (List ℕ) (Unit {0})
cancel host submissions killpg job =
    let pid = pid_in (lookup (submission_path host job.submission_key) submissions) in
    if ltb 0 pid then terminate pid (killpg pid) else pure tt
