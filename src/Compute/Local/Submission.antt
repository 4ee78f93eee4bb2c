-- ===== src/Compute/Local/Submission.antt =====
-- compute/local/provider.py: `LocalProvider.submit` and `LocalProvider.reconcile_submission`, in the
-- steps after which the disk or the process table has changed. A submission record is written to a file
-- of its own by `os.replace`, whole or not at all; the files of the directory are a dict from paths.
-- `sha256(...).hexdigest()` and the machine's answers are parameters.
pub mod Steps
pub mod Recovery
use semi_automated_research.Base.{
  ℕ, ◌+◌, String, Option, none, some, Bool, true, false, not, List, [], ◌∷◌, ◌++◌, ◌==◌, string_eq,
  f_string, if◌then◌else◌,
}
use semi_automated_research.Base.Dict.{lookup, put, update}
use semi_automated_research.Base.Exec.{
  Exec, ok, pure, gets, or_raise, raise_if, modify, runtime_error, io_error, ◌>>=◌, ◌>>◌,
}
use semi_automated_research.Compute.Protocol.{PreparedJob}

-- A submission record.
pub record Submission : Type 0 where
  pub submission_key : String
  pub external_job_id : String
  pub workdir : String
  pub status : String
  pub reserved_at : ℕ
  pub pid : Option ℕ
  pub launched_at : Option ℕ

-- The arguments of a `Popen`.
pub record Process : Type 0 where
  pub args : List String
  pub env : List (String × String)

-- What Python and the operating system answer, by the number of the call; `popen` gives the new
-- process's id, or `none` where it raises.
pub record Host : Type 0 where
  pub hexdigest : String → String
  pub executable : String
  pub environ : List (String × String)
  pub uuid4_hex : ℕ → String
  pub clock : ℕ → ℕ
  pub popen : ℕ → Process → Option ℕ

-- The submission files and the processes that were launched, the first first.
pub record Machine : Type 0 where
  pub calls : ℕ
  pub files : List (String × Submission)
  pub processes : List Process

module _ (host : Host) where
  -- `_submission_path`, without the directory.
  abbrev pub submission_path : String → String
  submission_path key = f_string (host.hexdigest key ∷ ".json" ∷ [])

  -- `_atomic_json`, after which the record is there.
  unfoldable pub write_record : String → Submission → Exec Machine Submission
  write_record key r = do
    modify (λ m. record m { files = put (submission_path key) r m.files })
    pure r

  abbrev pub reserved : PreparedJob → ℕ → Submission
  reserved p calls = record {
    submission_key = p.submission_key;
    external_job_id = f_string ("local-" ∷ host.uuid4_hex calls ∷ []);
    workdir = p.workdir;
    status = "RESERVED";
    reserved_at = host.clock (calls + 1);
    pid = none;
    launched_at = none;
  }

  -- A record that is there has to bear the key; where none is there one is reserved.
  unfoldable pub checked_or_reserved : PreparedJob → Option Submission → Exec Machine Submission
  unfolding write_record
  checked_or_reserved p (some r) = do
    raise_if (not (r.submission_key == p.submission_key)) runtime_error
    pure r
  checked_or_reserved p none = do
    calls ← gets (λ m. m.calls)
    modify (λ m. record m { calls = m.calls + 2 })
    write_record p.submission_key (reserved p calls)

  -- The first step of `submit`: its record, found or reserved.
  unfoldable pub reserve : PreparedJob → Exec Machine Submission
  unfolding checked_or_reserved
  reserve p = do
    found ← gets (λ m. lookup (submission_path p.submission_key) m.files)
    checked_or_reserved p found

  abbrev pub process_of : PreparedJob → Process
  process_of p = record {
    args =
        (host.executable ∷ "-m" ∷ "research_controller.runner" ∷ "--workdir" ∷ p.workdir ∷ "--"
          ∷ [])
        ++ p.command;
    env = update host.environ p.env;
  }

  -- The second step: `Popen`, which gives the process's id.
  unfoldable pub launch : PreparedJob → Exec Machine ℕ
  launch p = do
    calls ← gets (λ m. m.calls)
    pid ← or_raise (host.popen calls (process_of p)) io_error
    modify (λ m. record m { calls = m.calls + 1; processes = m.processes ++ process_of p ∷ [] })
    pure pid

  -- The third step: the record says LAUNCHED.
  unfoldable pub confirm : PreparedJob → Submission → ℕ → Exec Machine String
  unfolding write_record
  confirm p r pid = do
    calls ← gets (λ m. m.calls)
    modify (λ m. record m { calls = m.calls + 1 })
    write_record p.submission_key
        (record r { status = "LAUNCHED"; pid = some pid; launched_at = some (host.clock calls) })
    pure r.external_job_id

  -- The second and the third step.
  unfoldable pub run_reserved : PreparedJob → Submission → Exec Machine String
  run_reserved p r = do pid ← launch p; confirm p r pid

  -- `LocalProvider.submit`.
  unfoldable pub submit : PreparedJob → Exec Machine String
  submit p = do
    r ← reserve p
    if r.status == "LAUNCHED" then pure r.external_job_id else run_reserved p r

  -- What `reconcile_submission` says of the record.
  unfoldable pub launched_id : String → Option Submission → Exec Machine (Option String)
  launched_id key none = pure none
  launched_id key (some r) = do
    raise_if (not (r.submission_key == key)) runtime_error
    if r.status == "LAUNCHED" then pure (some r.external_job_id) else pure none

  -- `LocalProvider.reconcile_submission`.
  unfoldable pub reconcile_submission : String → Exec Machine (Option String)
  unfolding launched_id
  reconcile_submission key = do
    found ← gets (λ m. lookup (submission_path key) m.files)
    launched_id key found
