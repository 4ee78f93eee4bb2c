-- ===== src/Invariant/Transitions.antt =====
-- The operations of services/transitions.py keep `IsValid`.
use mathlib.Core.Path.{subst}
use semi_automated_research.Base.{
  ℕ, String, ◌≡◌, refl, sym, inl, inr, true, false, some, arith, string_eq, contains, Bool-cases,
  Option-cases, text_eq_refl,
}
use semi_automated_research.Base.Exec.Keeps.{After, Keeps}
use semi_automated_research.Domain.TaskStatus.{TaskStatus, task_status_eq, task_status_value}
use semi_automated_research.Domain.ComputeStatus.{compute_execution_status_eq}
use semi_automated_research.Db.Table.{find, find_self}
use semi_automated_research.Db.Models.{Project, Task, project_row, task_row, compute_job_row}
use semi_automated_research.Db.Session.{Session, given_or_now}
use semi_automated_research.Db.Session.Guard.{records}
use semi_automated_research.EventLog.Sequence.{event_in}
use semi_automated_research.Transitions.{TaskOptions, unexpected_task, moved_task, transition_task}
use semi_automated_research.Transitions.Tables.{task_transitions}
use semi_automated_research.Transitions.Run.{
  task_entry, task_written, transition_task-cases, transition_task_refused, transition_task_missing,
}
use semi_automated_research.Invariant.{IsValid, IsSoundTask}
use semi_automated_research.Invariant.Writes.{task_logged-IsValid}

-- A legal change leaves a sound Task sound.
pub moved_task-IsSoundTask :
    (to : TaskStatus) (now : ℕ) (t : Task)
    → contains to (task_transitions t.status) ≡ true
    → IsSoundTask t
    → IsSoundTask (moved_task to now t)
unfolding moved_task
moved_task-IsSoundTask to now t legal h = ground arith

pub moved_task_keys :
    (to : TaskStatus) (now : ℕ) (t : Task)
    → ((moved_task to now t).id ≡ t.id)
      × ((moved_task to now t).project_id ≡ t.project_id)
      × ((moved_task to now t).status ≡ to)
unfolding moved_task
moved_task_keys to now t = ground arith

task_recorded :
    (t : Task) (to : TaskStatus) (now : ℕ) (e : String) (options : TaskOptions) (p : Project)
    (s : Session)
    → records "TASK"
        (moved_task to now t).id
        (task_status_value (moved_task to now t).status)
        (event_in (task_entry t to e options) p s)
      ≡ true
unfolding event_in
task_recorded t to now e options p s =
    let (id, _, status) = moved_task_keys to now t in
    rw (id, status, text_eq_refl t.id, text_eq_refl (task_status_value to)) refl

pub transition_task_legal-IsValid :
    (id : String) (to : TaskStatus) (options : TaskOptions) (s : Session) (t : Task)
    → IsValid s
    → find id s.db.tasks ≡ some t
    → unexpected_task options.expected_status t.status ≡ false
    → contains to (task_transitions t.status) ≡ true
    → After IsValid (transition_task id to options s)
transition_task_legal-IsValid id to options s t h found expected legal =
    let (p, owner) = h.task_owned id t found in
    let (e, named, done) = transition_task-cases id to options s t p found owner expected legal in
    let (now, n) = given_or_now options.now s in
    let (same, home, status) = moved_task_keys to now t in
    let there = same_key same (find_self id s.db.tasks t found) in
    elim done [
      | inl returned ↦ rw returned (
          task_logged-IsValid s (moved_task to now t) t n h there home
            (moved_task-IsSoundTask to now t legal (h.task_sound id t found))
            (task_entry t to e options) p owner
            (task_recorded t to now e options p (task_written t to options s)))
      | inr raised ↦ rw raised tt
    ]
  where
    same_key : {i j : String} → i ≡ j → find j s.db.tasks ≡ some t → find i s.db.tasks ≡ some t
    same_key e f = subst (λ k. find k s.db.tasks ≡ some t) (sym e) f

-- `transition_task` keeps the session valid, whatever it is asked for.
pub transition_task-IsValid :
    (id : String) (to : TaskStatus) (options : TaskOptions)
    → Keeps IsValid (transition_task id to options)
transition_task-IsValid id to options = record {
  at = λ s h. elim (Option-cases (find id s.db.tasks)) [
    | inl missing ↦ rw (transition_task_missing id to options s missing) tt
    | inr (t, found) ↦ elim (Bool-cases (unexpected_task options.expected_status t.status)) [
      | inl odd ↦ rw (transition_task_refused id to options s t found (inl odd)) tt
      | inr usual ↦ elim (Bool-cases (contains to (task_transitions t.status))) [
        | inl legal ↦ transition_task_legal-IsValid id to options s t h found usual legal
        | inr illegal ↦ rw (transition_task_refused id to options s t found (inr illegal)) tt
      ]
    ]
  ];
}
