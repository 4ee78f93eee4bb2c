-- ===== src/Artifacts/Valid.antt =====
-- `ArtifactStore.ingest_file` keeps the session valid.
use semi_automated_research.Base.{ℕ, String, Option, none, some, ||-false}
use semi_automated_research.Base.Exec.{write_unless, integrity_error}
use semi_automated_research.Base.Exec.Keeps.{Keeps, keeps_rules, Keeps-write_unless}
use semi_automated_research.Db.Table.{find}
use semi_automated_research.Db.Models.{Artifact, artifact_row}
use semi_automated_research.Db.Session.{with_new_artifact}
use semi_automated_research.Invariant.{IsValid}
use semi_automated_research.Invariant.Flush.{
  flush-IsValid, select-IsValid, new_id-IsValid, utc_now-IsValid,
}
use semi_automated_research.Invariant.Writes.{append-IsValid}
use semi_automated_research.Invariant.Edits.{
  with_new_artifact-IsValid, with_new_task_artifact-IsValid,
}
use semi_automated_research.ProjectState.Valid.{absent-none}
use semi_automated_research.World.{Bytes}
use semi_automated_research.World.Always.{HasValid, on_session-HasValid, on_files-HasValid}
use semi_automated_research.Artifacts.{
  Storage, IngestArgs, artifact_clash, link_task, enter_artifact, kept_or_entered, ingest_file,
}

insert_artifact-IsValid :
    (row : Artifact)
    → Keeps IsValid
        (write_unless (λ s. artifact_clash row s.db) integrity_error (with_new_artifact row))
unfolding artifact_clash
insert_artifact-IsValid row = Keeps-write_unless _ _ _ λ s h free.
    with_new_artifact-IsValid row s h
      (absent-none (find row.id s.db.artifacts) (||-false _ _ free).0)

link_task-IsValid : (task_id : Option String) (id : String) → Keeps IsValid (link_task task_id id)
unfolding link_task
link_task-IsValid none id = search keeps_rules
link_task-IsValid (some task_id) id =
    Keeps-write_unless _ _ _ λ s h free. with_new_task_artifact-IsValid _ s h

pub enter_artifact-IsValid :
    (storage : Storage) (a : IngestArgs) (digest : String) (size : ℕ)
    → Keeps IsValid (enter_artifact storage a digest size)
unfolding enter_artifact
enter_artifact-IsValid storage a digest size =
    search
      (
        keeps_rules, flush-IsValid, select-IsValid, new_id-IsValid, utc_now-IsValid, append-IsValid,
        insert_artifact-IsValid, link_task-IsValid,
      )
      depth 14

module _ {W : Type 0} where
  kept_or_entered-HasValid :
      (storage : Storage) (a : IngestArgs) (content : Bytes) (existing : Option Artifact)
      → Keeps (HasValid {W = W}) (kept_or_entered storage a content existing)
  unfolding kept_or_entered
  kept_or_entered-HasValid storage a content (some old) = search keeps_rules
  kept_or_entered-HasValid storage a content none =
      search (keeps_rules, on_files-HasValid, on_session-HasValid, enter_artifact-IsValid)

  pub ingest_file-HasValid :
      (storage : Storage) (a : IngestArgs) → Keeps (HasValid {W = W}) (ingest_file storage a)
  unfolding ingest_file
  ingest_file-HasValid storage a =
      search
        (
          keeps_rules, on_files-HasValid, on_session-HasValid, select-IsValid,
          kept_or_entered-HasValid,
        )
        depth 10
