-- ===== src/Db/Session/Guard.antt =====
-- The listeners of db/session.py and db/models.py that reject a flush, the flush with them, and the
-- transaction that `session_factory.begin()` opens.
use semi_automated_research.Base.{
  String, ◌≡◌, refl, text_eq_refl, Option, none, some, [], Bool, true, false, ◌&&◌, ◌||◌, ◌==◌,
  string_eq, nat_eq, any, all, if◌then◌else◌,
}
use semi_automated_research.Base.Exec.{Result, Exec, ok, err, gets, value_error, ◌>>◌}
use semi_automated_research.Domain.TaskStatus.{task_status_eq, task_status_value}
use semi_automated_research.Domain.ComputeStatus.{
  compute_execution_status_eq, compute_execution_status_value,
}
use semi_automated_research.Db.Table.{find}
use semi_automated_research.Db.Models.{
  Task, Event, ComputeJob, Artifact, task_row, compute_job_row, artifact_row,
}
use semi_automated_research.Db.Session.Ops.{Db, Session}

abbrev pub is_text : Option String → String → Bool
is_text none v = false
is_text (some s) v = s == v

abbrev pub records : String → String → String → Event → Bool
records entity_type entity_id new_value e =
    e.entity_type == entity_type && e.entity_id == entity_id && is_text e.new_state new_value

-- An unchanged status passes; a changed one needs a pending Event that records the new value.
unfoldable pub task_audited : Session → Task → Bool
task_audited s t = elim (find t.id s.flushed.tasks) [
  | none ↦ true
  | some old ↦
      old.status == t.status || any (records "TASK" t.id (task_status_value t.status)) s.new_events
]

unfoldable pub job_audited : Session → ComputeJob → Bool
job_audited s j = elim (find j.id s.flushed.compute_jobs) [
  | none ↦ true
  | some old ↦
      old.execution_status == j.execution_status
      || any (records "COMPUTE_JOB" j.id (compute_execution_status_value j.execution_status))
          s.new_events
]

-- `enforce_audited_state_changes`, true where it raises nothing.
unfoldable pub enforce_audited_state_changes : Session → Bool
enforce_audited_state_changes s =
    all (task_audited s) s.db.tasks && all (job_audited s) s.db.compute_jobs

unfoldable pub same_text : Option String → Option String → Bool
same_text none none = true
same_text (some a) (some b) = a == b
same_text none (some b) = false
same_text (some a) none = false

pub same_text_refl : (a : Option String) → same_text a a ≡ true
unfolding same_text
same_text_refl none = refl
same_text_refl (some a) = text_eq_refl a

-- No immutable field of the Artifact differs from what the last flush wrote.
unfoldable pub identity_kept : Artifact → Artifact → Bool
identity_kept old a =
    old.project_id == a.project_id
    && same_text old.task_id a.task_id
    && old.kind == a.kind
    && old.logical_name == a.logical_name
    && old.version == a.version
    && old.storage_backend == a.storage_backend
    && old.uri == a.uri
    && same_text old.mime_type a.mime_type
    && old.size_bytes == a.size_bytes
    && old.sha256 == a.sha256
    && old.producer_type == a.producer_type
    && old.producer_ref_id == a.producer_ref_id
    && same_text old.parent_artifact_id a.parent_artifact_id
    && old.created_at == a.created_at

unfoldable pub artifact_kept : Session → Artifact → Bool
artifact_kept s a = elim (find a.id s.flushed.artifacts) [
  | none ↦ true
  | some old ↦ identity_kept old a
]

-- `prevent_artifact_identity_mutation` over the Artifacts, true where it raises nothing.
unfoldable pub prevent_artifact_identity_mutation : Session → Bool
prevent_artifact_identity_mutation s = all (artifact_kept s) s.db.artifacts

abbrev pub passes_listeners : Session → Bool
passes_listeners s = enforce_audited_state_changes s && prevent_artifact_identity_mutation s

-- `session.flush()`.
unfoldable pub flush : Exec Session Unit
flush s =
    if passes_listeners s
    then (ok tt, record s { flushed = s.db; new_events = [] })
    else (err value_error, s)

-- A query: it flushes first, and then reads the tables.
unfoldable pub select : {A : Type 0} → (Db → A) → Exec Session A
select f = do flush; gets (λ s. f s.db)

-- Back to what the transaction began with; what the clock and the ids have answered stays drawn.
abbrev pub rollback : Session → Session → Session
rollback s s' = record s { calls = s'.calls }

abbrev pub commit : {A : Type 0} → A → Session → Result (Unit {0}) × Session → Result A × Session
commit a s (ok u, s') = (ok a, s')
commit a s (err e, s') = (err e, rollback s s')

abbrev pub finish : {A : Type 0} → Session → Result A × Session → Result A × Session
finish s (ok a, s') = commit a s (flush s')
finish s (err e, s') = (err e, rollback s s')

-- `with session_factory.begin() as session:`, from a session with nothing pending.
unfoldable pub transaction : {A : Type 0} → Exec Session A → Exec Session A
transaction m s = finish s (m s)
