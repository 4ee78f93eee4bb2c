-- ===== src/Invariant/Moved.antt =====
-- What `transition_task` has done once it has returned.
use semi_automated_research.Base.{
  String, ◌≡◌, refl, sym, ap, ◌∙◌, inl, inr, List, some, true, false, contains, string_eq, text_eq,
  Bool-cases, Option-cases,
}
use semi_automated_research.Base.Exec.{ok, ◌>>=◌}
use semi_automated_research.Domain.TaskStatus.{TaskStatus, task_status_eq}
use semi_automated_research.Db.Table.{find, store, find-store, id-find}
use semi_automated_research.Db.Models.{Task, task_row}
use semi_automated_research.Db.Session.{Session, given_or_now, with_task, edit_task}
use semi_automated_research.EventLog.Sequence.{logged}
use semi_automated_research.Transitions.{TaskOptions, unexpected_task, moved_task, transition_task}
use semi_automated_research.Transitions.Tables.{task_transitions}
use semi_automated_research.Transitions.Run.{
  task_entry, task_written, transition_task-cases, transition_task_refused, transition_task_missing,
}
use semi_automated_research.Invariant.{IsValid}
use semi_automated_research.Invariant.Transitions.{moved_task_keys}

-- The Task was there, its change was expected and listed, and it is written.
pub record IsMoved (id : String) (to : TaskStatus) (options : TaskOptions) (s s' : Session)
    : Type 0 where
  pub task : Task
  pub found : find id s.db.tasks ≡ some task
  pub legal : contains to (task_transitions task.status) ≡ true
  pub moved : find id s'.db.tasks ≡ some (moved_task to (given_or_now options.now s).0 task)
  pub status : (moved_task to (given_or_now options.now s).0 task).status ≡ to
  pub same_jobs : s'.db.compute_jobs ≡ s.db.compute_jobs
  pub same_artifacts : s'.db.artifacts ≡ s.db.artifacts

-- A Task is found as it was written.
written_found :
    (id : String) (new old : Task) (rows : List Task)
    → find id rows ≡ some old
    → new.id ≡ old.id
    → find id (store new rows) ≡ some new
written_found id new old rows found same =
    let own : new.id ≡ id = same ∙ id-find id rows old found in
    let there : find new.id rows ≡ some old = rw own found in
    find-store id new old rows there ∙ rw ((text_eq new.id id).1 own) refl

module _ (id : String) (to : TaskStatus) (options : TaskOptions) (s s' : Session) where
  legal-IsMoved :
      (t : Task)
      → IsValid s
      → find id s.db.tasks ≡ some t
      → unexpected_task options.expected_status t.status ≡ false
      → contains to (task_transitions t.status) ≡ true
      → transition_task id to options s ≡ (ok tt, s')
      → IsMoved id to options s s'
  unfolding logged
  legal-IsMoved t valid found expected legal h =
      let (p, owner) = valid.task_owned id t found in
      let (e, named, outcome) =
        transition_task-cases id to options s t p found owner expected legal in
      let done : transition_task id to options s
          ≡ (ok tt, logged (task_entry t to e options) p (task_written t to options s)) =
        elim outcome [ inl returned ↦ returned | inr raised ↦ absurd (cc (raised, h)) ] in
      let now = (given_or_now options.now s).0 in
      let (same, home, status) = moved_task_keys to now t in
      let after = ap (λ x. x.1.db) (sym h ∙ done) in
      record {
        task = t;
        found = found;
        legal = legal;
        moved =
            ap (λ db. find id db.tasks) after
            ∙ written_found id (moved_task to now t) t s.db.tasks found same;
        status = status;
        same_jobs = ap (λ db. db.compute_jobs) after;
        same_artifacts = ap (λ db. db.artifacts) after;
      }

  pub transition_task-IsMoved :
      IsValid s → transition_task id to options s ≡ (ok tt, s') → IsMoved id to options s s'
  transition_task-IsMoved valid h = elim (Option-cases (find id s.db.tasks)) [
    | inl missing ↦ absurd (cc (transition_task_missing id to options s missing, h))
    | inr (t, found) ↦ elim (Bool-cases (unexpected_task options.expected_status t.status)) [
      | inl odd ↦ absurd (cc (transition_task_refused id to options s t found (inl odd), h))
      | inr usual ↦ elim (Bool-cases (contains to (task_transitions t.status))) [
        | inl legal ↦ legal-IsMoved t valid found usual legal h
        | inr illegal ↦
            absurd (cc (transition_task_refused id to options s t found (inr illegal), h))
      ]
    ]
  ]

pub edit_task_lem :
    (id : String) (f : Task → Task) (s s' : Session) (t : Task)
    → find id s.db.tasks ≡ some t
    → (f t).id ≡ t.id
    → edit_task id f s ≡ (ok tt, s')
    → find id s'.db.tasks ≡ some (f t)
unfolding edit_task ◌>>=◌
edit_task_lem id f s s' t found same h =
    let done : (ok tt, with_task (f t) s) ≡ (ok tt, s') = rw found at h in
    ap (λ x. find id x.1.db.tasks) (sym done) ∙ written_found id (f t) t s.db.tasks found same
