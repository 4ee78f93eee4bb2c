-- ===== src/Samples/Versions.antt =====
-- The theorem on versions, applied to a log of which there is a version 4 already.
use mathlib.Core.List.{Memᴰ}
use semi_automated_research.Base.{◌<◌, ◌≡◌, refl, none, some, true, false, [], ◌∷◌, ◌++◌}
use semi_automated_research.Base.Exec.{◌>>=◌, write_unless, gets, pure, modify, or_raise, raise_if}
use semi_automated_research.Db.Models.{Artifact}
use semi_automated_research.Db.Session.{Session, new_id, or_new_id, given_or_drawn, utc_now}
use semi_automated_research.Db.Session.Guard.{
  select, flush, enforce_audited_state_changes, prevent_artifact_identity_mutation, task_audited,
  job_audited, artifact_kept, identity_kept, same_text,
}
use semi_automated_research.Db.Table.{find, store}
use semi_automated_research.EventLog.{append, add_event}
use semi_automated_research.Artifacts.{
  IngestArgs, enter_artifact, max_version, artifact_clash, link_task,
}
use semi_automated_research.Artifacts.Versions.{is_named, enter_artifact_version}
use semi_automated_research.Samples.{sample_session}
use semi_automated_research.Samples.Running.{log_artifact, storage}

abbrev log_args : IngestArgs
log_args = record {
  project_id = "prj_1";
  task_id = some "tsk_1";
  source = "/jobs/1/run.out";
  logical_name = "run.out";
  kind = "LOG";
  producer_type = "COMPUTE_JOB";
  producer_ref_id = "job_2";
  evidence_eligible = false;
  schema_name = none;
  metadata = none;
  correlation_id = none;
}

-- The sample session with the older log.
abbrev with_log : Session
with_log = record sample_session { db = record sample_session.db { artifacts = log_artifact ∷ [] } }

abbrev entered : Session
entered = (enter_artifact storage log_args "many" 3 with_log).1

enter_artifact_version_example :
    (row : Artifact) × (entered.db.artifacts ≡ (log_artifact ∷ []) ++ row ∷ [])
    × (is_named "prj_1" "run.out" row ≡ true)
    × ((r : Artifact)
        → Memᴰ r (log_artifact ∷ [])
        → is_named "prj_1" "run.out" r ≡ true
        → 0 < r.version
        → r.version < row.version)
unfolding ◌>>=◌ enter_artifact write_unless gets pure modify or_raise raise_if new_id or_new_id
    given_or_drawn utc_now select flush enforce_audited_state_changes
    prevent_artifact_identity_mutation task_audited job_audited artifact_kept find store append
    add_event max_version artifact_clash link_task identity_kept same_text
enter_artifact_version_example =
    enter_artifact_version storage log_args "many" 3 with_log entered "art_10" refl
