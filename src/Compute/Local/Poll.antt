-- ===== src/Compute/Local/Poll.antt =====
-- compute/local/provider.py: `LocalProvider.poll`, with `_read_delta` and `_telemetry`. What each read of
-- the machine answers at its time is an argument; UTF-8 decoding, `splitlines`, `json.loads` and `int`
-- are parameters.
pub mod Deltas
pub mod Observed
use semi_automated_research.Base.{
  ℕ, zero, suc, String, Option, none, some, Bool, true, false, not, ◌&&◌, ◌||◌, List, [], ◌∷◌, ◌==◌,
  string_eq, any, length, leb, ltb, f_string, if◌then◌else◌,
}
use semi_automated_research.Base.Json.{
  ℤ, pos, negsuc, Json, Fields, int, str, obj, empty, field, get, set,
}
use semi_automated_research.Base.Dict.{lookup}
use semi_automated_research.Base.Exec.{Result, ok, err, key_error, attribute_error}
use semi_automated_research.Domain.ComputeStatus.{ComputeExecutionStatus}
use semi_automated_research.Domain.Observation.{ObservationStatus, FailureClass}
use semi_automated_research.Compute.Protocol.{ComputeJobView, JobObservation}
use semi_automated_research.Compute.Local.Submission.{Host, Submission, submission_path}
use semi_automated_research.World.{Bytes}

abbrev pub drop : ℕ → Bytes → Bytes
drop zero bytes = bytes
drop (suc n) [] = []
drop (suc n) (b ∷ bytes) = drop n bytes

-- `min(max(offset, 0), size)`.
abbrev pub start_at : ℤ → ℕ → ℕ
start_at (pos n) size = if leb n size then n else size
start_at (negsuc n) size = 0

-- A log while it is read: the size that `stat` answers, and what the file holds when it is read to its
-- end, which is later: the run may have written more.
pub record LogFile : Type 0 where
  pub size : ℕ
  pub content : Bytes

-- `_read_delta`, before the bytes are decoded; `none` is a file that is not there.
unfoldable pub read_delta : Option LogFile → ℤ → Bytes × ℤ
read_delta none offset = ([], offset)
read_delta (some f) offset = (drop (start_at offset f.size) f.content, pos f.size)

-- What `os.kill(pid, 0)` answers.
pub data Signal : Type 0 where
  delivered process_lookup_error permission_error : Signal

abbrev pub is_alive : Signal → Bool
is_alive delivered = true
is_alive process_lookup_error = false
is_alive permission_error = true

-- What Python's library answers.
pub record Python : Type 0 where
  pub decode : Bytes → String
  pub splitlines : String → List String
  pub loads : String → Option Json
  pub to_int : Json → Result ℤ

-- What the machine answers, in the order in which `poll` asks; of `exit.json` whether it is there, and
-- what it holds.
pub record Seen : Type 0 where
  pub now : ℕ
  pub out_file : Option LogFile
  pub error_file : Option LogFile
  pub exit_file : Option (Result Fields)
  pub submissions : List (String × Submission)
  pub kill : ℕ → Signal

abbrev pub is_some_key : String → Fields → Bool
is_some_key key d = elim (get key d) [ none ↦ false | some v ↦ true ]

abbrev is_progress : Fields → Bool
is_progress d =
    any (λ key. is_some_key key d) ("step" ∷ "loss" ∷ "tokens_per_sec" ∷ "elapsed_sec" ∷ [])

-- `d.update(other)`.
abbrev updated : Fields → Fields → Fields
updated d empty = d
updated d (field k v other) = updated (set k v d) other

abbrev with_line : Fields → Option Json → Fields
with_line latest (some (obj d)) = if is_progress d then updated latest d else latest
with_line latest _ = latest

module _ (python : Python) where
  unfoldable pub telemetry_of : List String → Fields → Fields
  telemetry_of [] latest = latest
  telemetry_of (line ∷ lines) latest = telemetry_of lines (with_line latest (python.loads line))

  -- `_telemetry(stdout_delta, stderr_delta)`.
  unfoldable pub telemetry : String → String → Fields
  telemetry out error =
      telemetry_of (python.splitlines error) (telemetry_of (python.splitlines out) empty)

  -- `int(job.log_cursor.get(name, {}).get("offset", 0))`.
  abbrev pub offset_in : Option Json → Result ℤ
  offset_in none = ok (pos 0)
  offset_in (some (obj d)) = elim (get "offset" d) [ none ↦ ok (pos 0) | some v ↦ python.to_int v ]
  offset_in (some _) = err attribute_error

  -- `int(exit_data["exit_code"])`.
  abbrev pub exit_code_in : Result Fields → Result ℤ
  exit_code_in (err e) = err e
  exit_code_in (ok d) = elim (get "exit_code" d) [ none ↦ err key_error | some v ↦ python.to_int v ]

-- How a run stands: the status, the failure, the state in words and the exit code.
pub record Standing : Type 0 where
  pub status : ComputeExecutionStatus
  pub failure : FailureClass
  pub raw_state : String
  pub exit_code : Option ℤ

abbrev pub exited : ℤ → Standing
exited (pos zero) = record {
  status = ComputeExecutionStatus.succeeded;
  failure = FailureClass.none;
  raw_state = "EXITED";
  exit_code = some (pos 0);
}
exited code = record {
  status = ComputeExecutionStatus.failed;
  failure = FailureClass.code;
  raw_state = "EXITED";
  exit_code = some code;
}

abbrev pub without_exit : Bool → Standing
without_exit true = record {
  status = ComputeExecutionStatus.running;
  failure = FailureClass.none;
  raw_state = "PROCESS_ALIVE";
  exit_code = none;
}
without_exit false = record {
  status = ComputeExecutionStatus.failed;
  failure = FailureClass.infrastructure;
  raw_state = "PROCESS_MISSING_WITHOUT_EXIT_RECORD";
  exit_code = none;
}

-- `int(record.get("pid", 0))`, of the submission's record if there is one.
abbrev pub pid_in : Option Submission → ℕ
pid_in none = 0
pid_in (some r) = elim r.pid [ none ↦ 0 | some pid ↦ pid ]

abbrev pub process_alive : (ℕ → Signal) → ℕ → Bool
process_alive kill pid = if ltb 0 pid then is_alive (kill pid) else false

abbrev exited_with : Result ℤ → Result Standing
exited_with (ok code) = ok (exited code)
exited_with (err e) = err e

-- The exit record, or else the process.
unfoldable pub standing :
    Host → Python → Seen → ComputeJobView → Option (Result Fields) → Result Standing
standing host python seen job (some exit_data) = exited_with (exit_code_in python exit_data)
standing host python seen job none = ok (
    without_exit (
      process_alive seen.kill
        (pid_in (lookup (submission_path host job.submission_key) seen.submissions))))

abbrev is_infrastructure : FailureClass → Bool
is_infrastructure FailureClass.infrastructure = true
is_infrastructure _ = false

abbrev place : String → ℤ → Json
place path offset = obj (field "path" (str path) (field "offset" (int offset) empty))

module _ (host : Host) (python : Python) (seen : Seen) (job : ComputeJobView) where
  -- `workdir / name`.
  abbrev pub in_workdir : String → String
  in_workdir name = f_string (job.remote_workdir ∷ "/" ∷ name ∷ [])

  abbrev pub observation : Bytes × ℤ → Bytes × ℤ → Standing → JobObservation
  observation (out, out_next) (error, error_next) s = record {
    provider_id = "local";
    compute_job_id = job.id;
    external_job_id = job.external_job_id;
    observed_at = seen.now;
    observation_status = ObservationStatus.fresh;
    execution_status = s.status;
    raw_scheduler_state = some s.raw_state;
    exit_code = s.exit_code;
    failure_class = s.failure;
    retryable = is_infrastructure s.failure;
    progress = telemetry python (python.decode out) (python.decode error);
    log_deltas = ("stdout", python.decode out) ∷ ("stderr", python.decode error) ∷ [];
    log_cursor =
        field "stdout" (place (in_workdir "run.out") out_next)
          (field "stderr" (place (in_workdir "run.error") error_next) empty);
    anomalies = [];
    artifact_candidates = [];
    metadata = empty;
  }

  abbrev observe : Result ℤ → Result ℤ → Result Standing → Result JobObservation
  observe (err e) errors s = err e
  observe (ok out) (err e) s = err e
  observe (ok out) (ok error) (err e) = err e
  observe (ok out) (ok error) (ok s) =
      ok (observation (read_delta seen.out_file out) (read_delta seen.error_file error) s)

  -- `LocalProvider.poll`.
  unfoldable pub poll : Result JobObservation
  unfolding standing
  poll =
      observe (offset_in python (get "stdout" job.log_cursor))
        (offset_in python (get "stderr" job.log_cursor))
        (standing host python seen job seen.exit_file)
