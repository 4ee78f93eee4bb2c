-- ===== src/Invariant/Flush.antt =====
-- From a valid session a flush raises nothing, and neither does a query; a transaction that returns
-- leaves a valid session, and one that raises leaves the session that it began with.
use semi_automated_research.Base.{
  ℕ, ◌+◌, String, ◌≡◌, refl, true, Option, some, [], arith, string_eq, nat_beq_refl, text_eq_refl,
}
use semi_automated_research.Base.Exec.{◌>>=◌, Error, Exec, Result, ok, err}
use semi_automated_research.Base.Exec.Keeps.{After, Keeps, keeps_rules}
use semi_automated_research.Domain.TaskStatus.{task_status_eq}
use semi_automated_research.Domain.ComputeStatus.{compute_execution_status_eq}
use semi_automated_research.Db.Table.{find}
use semi_automated_research.Db.Keys.{Distinct-all}
use semi_automated_research.Db.Models.{
  Task, ComputeJob, Artifact, task_row, compute_job_row, artifact_row,
}
use semi_automated_research.Db.Session.{
  Db, Session, given_or_now, or_utc_now, the_task, the_job, new_id, or_new_id, utc_now,
  given_or_drawn,
}
use semi_automated_research.Db.Session.Guard.{
  enforce_audited_state_changes, prevent_artifact_identity_mutation, task_audited, job_audited,
  artifact_kept, identity_kept, same_text_refl, flush, select, rollback, transaction,
}
use semi_automated_research.Invariant.{IsValid}

-- The session after a flush that passed.
abbrev pub written : Session → Session
written s = record s { flushed = s.db; new_events = [] }

task_audited-written :
    (s : Session) (t : Task) → find t.id s.db.tasks ≡ some t → task_audited (written s) t ≡ true
unfolding task_audited
task_audited-written s t found = rw (found, task_audited) (ground arith)

job_audited-written :
    (s : Session) (j : ComputeJob)
    → find j.id s.db.compute_jobs ≡ some j
    → job_audited (written s) j ≡ true
unfolding job_audited
job_audited-written s j found = rw (found, job_audited) (ground arith)

identity_kept_self : (a : Artifact) → identity_kept a a ≡ true
unfolding identity_kept
identity_kept_self a = simp (text_eq_refl, same_text_refl, nat_beq_refl)

artifact_kept-written :
    (s : Session) (a : Artifact)
    → find a.id s.db.artifacts ≡ some a
    → artifact_kept (written s) a ≡ true
unfolding artifact_kept
artifact_kept-written s a found = rw (found, artifact_kept) (identity_kept_self a)

pub written-IsValid : (s : Session) → IsValid s → IsValid (written s)
unfolding enforce_audited_state_changes prevent_artifact_identity_mutation
written-IsValid s h = record {
  sequenced = record { numbered = h.sequenced.numbered };
  audited =
      rw (Distinct-all (task_audited (written s)) s.db.tasks h.task_keys (task_audited-written s)) (
        Distinct-all (job_audited (written s)) s.db.compute_jobs h.job_keys
          (job_audited-written s));
  kept =
      Distinct-all (artifact_kept (written s)) s.db.artifacts h.artifact_keys
        (artifact_kept-written s);
  task_keys = h.task_keys;
  job_keys = h.job_keys;
  artifact_keys = h.artifact_keys;
  task_flushed = λ id gone. gone;
  job_flushed = λ id gone. gone;
  artifact_flushed = λ id gone. gone;
  task_owned = h.task_owned;
  job_owned = h.job_owned;
  task_sound = h.task_sound;
  job_sound = h.job_sound;
}

-- A flush of a valid session raises nothing.
pub flush_ok : (s : Session) → IsValid s → flush s ≡ (ok tt, written s)
unfolding flush
flush_ok s h = rw (h.audited, h.kept) refl

-- A query on a valid session raises nothing, and reads the tables as they stand.
pub select_ok :
    {A : Type 0} (f : Db → A) (s : Session) → IsValid s → select f s ≡ (ok (f s.db), written s)
unfolding ◌>>=◌ select
select_ok f s h = rw (flush_ok s h) refl

pub flush-IsValid : Keeps IsValid flush
flush-IsValid = record { at = λ s h. rw (flush_ok s h) (written-IsValid s h) }

pub select-IsValid : {A : Type 0} (f : Db → A) → Keeps IsValid (select f)
select-IsValid f = record { at = λ s h. rw (select_ok f s h) (written-IsValid s h) }

-- A transaction that raises leaves the tables as they were; only the clock and the ids have moved on.
pub transaction_raises :
    {A : Type 0} (m : Exec Session A) (s : Session) (e : Error) (s' : Session)
    → m s ≡ (err e, s')
    → transaction m s ≡ (err e, rollback s s')
unfolding transaction
transaction_raises m s e s' h = rw h refl

-- A transaction whose body returns in a valid session commits what the body wrote.
pub transaction_commits :
    {A : Type 0} (m : Exec Session A) (s : Session) (a : A) (s' : Session)
    → m s ≡ (ok a, s')
    → IsValid s'
    → transaction m s ≡ (ok a, written s')
unfolding transaction
transaction_commits m s a s' h valid = rw (h, flush_ok s' valid) refl

pub rollback-IsValid : (s s' : Session) → IsValid s → IsValid (rollback s s')
unfolding enforce_audited_state_changes prevent_artifact_identity_mutation task_audited job_audited
    artifact_kept
rollback-IsValid s s' h = record {
  sequenced = record { numbered = h.sequenced.numbered };
  audited = h.audited;
  kept = h.kept;
  task_keys = h.task_keys;
  job_keys = h.job_keys;
  artifact_keys = h.artifact_keys;
  task_flushed = h.task_flushed;
  job_flushed = h.job_flushed;
  artifact_flushed = h.artifact_flushed;
  task_owned = h.task_owned;
  job_owned = h.job_owned;
  task_sound = h.task_sound;
  job_sound = h.job_sound;
}

-- A transaction over methods that keep the session valid leaves it valid, also when it raises.
pub transaction-IsValid :
    {A : Type 0} (m : Exec Session A)
    → Keeps IsValid m
    → (s : Session) → IsValid s
    → IsValid (transaction m s).1
transaction-IsValid {A} m keeps s h = go (m s) refl (keeps.at s h)
  where
    go : (x : Result A × Session) → m s ≡ x → After IsValid x → IsValid (transaction m s).1
    go (ok a, s') e valid = rw (transaction_commits m s a s' e valid) (written-IsValid s' valid)
    go (err e', s') e valid = rw (transaction_raises m s e' s' e) (rollback-IsValid s s' h)

-- Reading the clock keeps the session valid.
pub clock-IsValid : (now : Option ℕ) → Keeps IsValid (or_utc_now now)
unfolding or_utc_now
clock-IsValid now = record {
  at = λ s h. rollback-IsValid s (record s { calls = (given_or_now now s).1 }) h;
}

-- Looking an object up changes nothing.
pub the_task-IsValid : (id : String) → Keeps IsValid (the_task id)
unfolding the_task
the_task-IsValid id = search keeps_rules

pub the_job-IsValid : (id : String) → Keeps IsValid (the_job id)
unfolding the_job
the_job-IsValid id = search keeps_rules

-- Drawing ids and instants changes nothing but the count of draws.
pub new_id-IsValid : (prefix : String) → Keeps IsValid (new_id prefix)
unfolding new_id
new_id-IsValid prefix = record {
  at = λ s h. rollback-IsValid s (record s { calls = s.calls + 1 }) h;
}

pub or_new_id-IsValid :
    (given : Option String) (prefix : String) → Keeps IsValid (or_new_id given prefix)
unfolding or_new_id
or_new_id-IsValid given prefix = record {
  at = λ s h. rollback-IsValid s (record s { calls = (given_or_drawn given prefix s).1 }) h;
}

pub utc_now-IsValid : Keeps IsValid utc_now
unfolding utc_now
utc_now-IsValid = record { at = λ s h. rollback-IsValid s (record s { calls = s.calls + 1 }) h }
