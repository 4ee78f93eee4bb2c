-- ===== src/Artifacts.antt =====
-- artifacts/store.py: `ArtifactStore.ingest_file`, which copies a file into content-addressed storage
-- and enters it as an Artifact. The hash, the type that a file's name suggests, the number of the process
-- and what a copy holds (the source may change while it is read) are parameters.
pub mod Content
pub mod Versions
pub mod Valid
use semi_automated_research.Base.{
  ℕ, ◌+◌, String, Option, none, some, Bool, true, false, not, ◌&&◌, ◌||◌, List, [], ◌∷◌, ◌==◌,
  string_eq, nat_eq, any, length, f_string, if◌then◌else◌, leb,
}
use semi_automated_research.Base.Json.{Fields, pos, str, int, empty, field, or_empty}
use semi_automated_research.Base.Dict.{lookup, put}
use semi_automated_research.Base.Exec.{
  Exec, pure, gets, or_raise, raise_if, modify, write_unless, integrity_error, file_not_found,
  io_error, ◌>>=◌, ◌>>◌,
}
use semi_automated_research.Domain.Resource.{
  ArtifactIntegrityStatus, artifact_integrity_status_value,
}
use semi_automated_research.Db.Table.{find}
use semi_automated_research.Db.Models.{Artifact, TaskArtifact, artifact_row, task_row, project_row}
use semi_automated_research.Db.Session.{
  Db, Session, new_id, utc_now, with_new_artifact, with_new_task_artifact,
}
use semi_automated_research.Db.Session.Guard.{flush, select, same_text}
use semi_automated_research.EventLog.{entry, append}
use semi_automated_research.Transitions.{text_or}
use semi_automated_research.ProjectState.Rows.{is_absent, first_where}
use semi_automated_research.World.{Bytes, Files, World, on_session, on_files}

-- The workspace, and what the store asks of the machine.
pub record Storage : Type 0 where
  pub workspace_root : String
  pub sha256 : Bytes → String
  pub pid : String
  pub copied : ℕ → Bytes → Bytes
  pub guess_type : String → Option String
  -- `Path(source).resolve()`, and the last part of a path.
  pub resolve : String → String
  pub name : String → String

-- The keyword arguments of `ingest_file`.
pub record IngestArgs : Type 0 where
  pub project_id : String
  pub task_id : Option String
  pub source : String
  pub logical_name : String
  pub kind : String
  pub producer_type : String
  pub producer_ref_id : String
  pub evidence_eligible : Bool
  pub schema_name : Option String
  pub metadata : Option Fields
  pub correlation_id : Option String

-- `text[:2]`.
abbrev first_two : String → String
first_two String.[] = ""
first_two (String.◌∷◌ a String.[]) = String.◌∷◌ a String.[]
first_two (String.◌∷◌ a (String.◌∷◌ b rest)) = String.◌∷◌ a (String.◌∷◌ b String.[])

-- The directory and the name of a content's file, and of the copy before it is complete.
abbrev pub shelf : Storage → String → String → String
shelf storage project_id digest =
    f_string (
      storage.workspace_root
      ∷ "/"
      ∷ project_id
      ∷ "/artifacts/sha256/"
      ∷ first_two digest
      ∷ "/"
      ∷ [])

abbrev pub destination : Storage → String → String → String
destination storage project_id digest = f_string (shelf storage project_id digest ∷ digest ∷ [])

abbrev pub temporary : Storage → String → String → String
temporary storage project_id digest =
    f_string (shelf storage project_id digest ∷ "." ∷ digest ∷ "." ∷ storage.pid ∷ ".tmp" ∷ [])

-- A copy, whose hash is tested before it takes the destination's name: the temporary file is made anew,
-- and is gone when the copy ends either way.
unfoldable pub copy_in : Storage → String → String → Bytes → Exec Files (Unit {0})
copy_in storage project_id digest content = do
  leftover ← gets (λ f. not (is_absent (lookup (temporary storage project_id digest) f.tree)))
  raise_if leftover io_error
  copies ← gets (λ f. f.copies)
  modify (λ f. record f { copies = f.copies + 1 })
  let copy = storage.copied copies content
  raise_if (not (storage.sha256 copy == digest)) io_error
  modify (λ f. record f { tree = put (destination storage project_id digest) copy f.tree })

-- What is there already has to have the hash.
unfoldable pub copied_or_checked :
    Storage → String → String → Bytes → Option Bytes → Exec Files (Unit {0})
copied_or_checked storage project_id digest content none = copy_in storage project_id digest content
copied_or_checked storage project_id digest content (some old) =
    raise_if (not (storage.sha256 old == digest)) io_error

-- The content's file, made or checked; gives `destination.stat().st_size`.
unfoldable pub keep_content : Storage → String → Bytes → Exec Files ℕ
keep_content storage project_id content = do
  let digest = storage.sha256 content
  there ← gets (λ f. lookup (destination storage project_id digest) f.tree)
  copied_or_checked storage project_id digest content there
  kept ← gets (λ f. lookup (destination storage project_id digest) f.tree)
  bytes ← or_raise kept file_not_found
  pure (length bytes)

-- The query for an Artifact that the same producer made of the same content.
abbrev pub is_same_product : IngestArgs → String → Artifact → Bool
is_same_product a digest r =
    r.project_id == a.project_id
    && (r.producer_type == a.producer_type
        && (r.producer_ref_id == a.producer_ref_id
            && (r.logical_name == a.logical_name && r.sha256 == digest)))

-- `select(func.max(Artifact.version))` over the Artifacts of the name; `none` where there is none.
unfoldable pub max_version : String → String → List Artifact → Option ℕ
max_version project_id name [] = none
max_version project_id name (r ∷ rs) =
    let rest = max_version project_id name rs in
    if r.project_id == project_id && r.logical_name == name
    then elim rest [
      | none ↦ some r.version
      | some v ↦ some (if leb v r.version then r.version else v)
    ]
    else rest

-- `(current_version or 0) + 1`.
abbrev pub next_version : Option ℕ → ℕ
next_version none = 1
next_version (some v) = v + 1

-- What is known of the new row before it is flushed, and the row with its defaults.
abbrev pub new_artifact : Storage → IngestArgs → String → ℕ → ℕ → ℕ → String → ℕ → Artifact
new_artifact storage a digest size version verified_at id created_at = record {
  id = id;
  project_id = a.project_id;
  task_id = a.task_id;
  kind = a.kind;
  logical_name = a.logical_name;
  version = version;
  storage_backend = "local_cas";
  uri = destination storage a.project_id digest;
  mime_type =
      text_or (storage.guess_type (storage.name (storage.resolve a.source)))
        (some "application/octet-stream");
  size_bytes = size;
  sha256 = digest;
  producer_type = a.producer_type;
  producer_ref_id = a.producer_ref_id;
  parent_artifact_id = none;
  integrity_status = ArtifactIntegrityStatus.verified;
  schema_name = a.schema_name;
  evidence_eligible = a.evidence_eligible;
  metadata_json = or_empty a.metadata;
  created_at = created_at;
  verified_at = some verified_at;
}

abbrev pub lacks_task : Option String → Db → Bool
lacks_task none db = false
lacks_task (some id) db = is_absent (find id db.tasks)

-- Primary key, foreign keys, `UniqueConstraint("project_id", "logical_name", "version")` and
-- `UniqueConstraint("project_id", "producer_type", "producer_ref_id", "logical_name", "sha256")`.
unfoldable pub artifact_clash : Artifact → Db → Bool
artifact_clash a db =
    not (is_absent (find a.id db.artifacts))
    || (is_absent (find a.project_id db.projects)
        || (lacks_task a.task_id db
            || any
                (λ b.
                  b.project_id == a.project_id
                  && (b.logical_name == a.logical_name
                      && (b.version == a.version
                          || (b.producer_type == a.producer_type
                              && (b.producer_ref_id == a.producer_ref_id
                                  && b.sha256 == a.sha256)))))
                db.artifacts))

-- `session.add(TaskArtifact(...))`, where the Artifact was made for a Task.
unfoldable pub link_task : Option String → String → Exec Session (Unit {0})
link_task none artifact_id = pure tt
link_task (some task_id) artifact_id =
    let row : TaskArtifact = record {
      task_id = task_id;
      artifact_id = artifact_id;
      role = "output";
    } in
    write_unless
      (λ s.
        any (λ r. r.task_id == task_id && (r.artifact_id == artifact_id && r.role == "output"))
          s.db.task_artifacts)
      integrity_error (with_new_task_artifact row)

-- The row, its link and its two Events.
unfoldable pub enter_artifact : Storage → IngestArgs → String → ℕ → Exec Session String
enter_artifact storage a digest size = do
  current ← select (λ db. max_version a.project_id a.logical_name db.artifacts)
  verified_at ← utc_now
  id ← new_id "art"
  created_at ← utc_now
  let row = new_artifact storage a digest size (next_version current) verified_at id created_at
  write_unless (λ s. artifact_clash row s.db) integrity_error (with_new_artifact row)
  flush
  link_task a.task_id id
  append (record (entry a.project_id "ARTIFACT_CREATED" "ARTIFACT" id) {
    correlation_id = a.correlation_id;
    dedupe_key = some (
        f_string (
          "artifact-created:" ∷ a.producer_type ∷ ":" ∷ a.producer_ref_id ∷ ":" ∷ a.logical_name
          ∷ ":" ∷ digest ∷ []));
    new_state = some (artifact_integrity_status_value ArtifactIntegrityStatus.verified);
    payload = some (
        field "logical_name" (str a.logical_name)
          (field "sha256" (str digest) (field "version" (int (pos (next_version current))) empty)));
  })
  append (record (entry a.project_id "ARTIFACT_VERIFIED" "ARTIFACT" id) {
    correlation_id = a.correlation_id;
    dedupe_key = some (f_string ("artifact-verified:" ∷ id ∷ []));
    old_state = some (artifact_integrity_status_value ArtifactIntegrityStatus.pending);
    new_state = some (artifact_integrity_status_value ArtifactIntegrityStatus.verified);
  })
  pure id

module _ {W : Type 0} where
  unfoldable pub kept_or_entered :
      Storage → IngestArgs → Bytes → Option Artifact → Exec (World W) String
  kept_or_entered storage a content (some existing) = pure existing.id
  kept_or_entered storage a content none = do
    size ← on_files (keep_content storage a.project_id content)
    on_session (enter_artifact storage a (storage.sha256 content) size)

  -- `ArtifactStore.ingest_file`; the Artifact is given by its id.
  unfoldable pub ingest_file : Storage → IngestArgs → Exec (World W) String
  ingest_file storage a = do
    found ← on_files (gets (λ f. lookup (storage.resolve a.source) f.tree))
    content ← or_raise found file_not_found
    existing ←
        on_session
          (select (λ db. first_where (is_same_product a (storage.sha256 content)) db.artifacts))
    kept_or_entered storage a content existing
