-- ===== src/Transitions/Run.antt =====
-- What `transition_task` does, on every branch.
use semi_automated_research.Base.{
  String, ◌≡◌, refl, ◌⊎◌, true, false, Option, none, some, ◌==◌, string_eq, contains, Bool-cases,
  inl, inr,
}
use semi_automated_research.Base.Exec.{
  ◌>>=◌, ok, err, invalid_transition, lookup_error, integrity_error,
}
use semi_automated_research.Domain.TaskStatus.{TaskStatus, task_status_eq, task_status_value}
use semi_automated_research.Domain.ComputeStatus.{compute_execution_status_eq}
use semi_automated_research.Db.Table.{find}
use semi_automated_research.Db.Models.{Project, Task, project_row, task_row, compute_job_row}
use semi_automated_research.Db.Session.{Session, with_task, given_or_now, or_utc_now}
use semi_automated_research.EventLog.{Entry, entry}
use semi_automated_research.EventLog.Sequence.{
  IsSequenced, logged, unlogged, event_in, id_used, append_ok, append-cases, no_key,
}
use semi_automated_research.Transitions.Tables.{task_transitions, task_event_type}
use semi_automated_research.Transitions.Paths.{task_event_type_total}
use semi_automated_research.Transitions.{
  TaskOptions, unexpected_task, text_or, moved_task, transition_task,
}

-- The arguments of the Event that a change of a Task writes.
abbrev pub task_entry : Task → TaskStatus → String → TaskOptions → Entry
task_entry t to event_type options = record (entry t.project_id event_type "TASK" t.id) {
  actor_id = options.actor_id;
  correlation_id = options.correlation_id;
  old_state = some (task_status_value t.status);
  new_state = some (task_status_value to);
  payload = options.payload;
}

-- The session once the Task has been written and before the Event is.
abbrev pub task_written : Task → TaskStatus → TaskOptions → Session → Session
task_written t to options s =
    let (now, n) = given_or_now options.now s in
    with_task (moved_task to now t) (record s { calls = n })

pub text_or_total :
    (given default : Option String) {d : String}
    → default ≡ some d
    → (e : String) × (text_or given default ≡ some e)
text_or_total none default {d} h = (d, h)
text_or_total (some g) default {d} h = elim (Bool-cases (g == "")) [
  | inl blank ↦ (d, rw blank h)
  | inr text ↦ (g, rw text refl)
]

module _ (id : String) (to : TaskStatus) (options : TaskOptions) (s : Session) (t : Task)
    (p : Project) where
  -- A change that was expected and that the table lists writes the Task, and then its Event if the
  -- insertion is not refused.
  pub transition_task-cases :
      find id s.db.tasks ≡ some t
      → find t.project_id s.db.projects ≡ some p
      → unexpected_task options.expected_status t.status ≡ false
      → contains to (task_transitions t.status) ≡ true
      → (e : String) × (text_or options.event_type (task_event_type to) ≡ some e)
        × ((transition_task id to options s
              ≡ (ok tt, logged (task_entry t to e options) p (task_written t to options s)))
            ⊎ (transition_task id to options s ≡ (
              err integrity_error,
              unlogged (task_entry t to e options) p (task_written t to options s),
            )))
  unfolding ◌>>=◌ transition_task or_utc_now
  transition_task-cases found owner expected legal =
      let (d, known) = task_event_type_total t.status to legal in
      let (e, named) = text_or_total options.event_type (task_event_type to) known in
      (
        e,
        named,
        elim (append-cases (task_entry t to e options) (task_written t to options s) p owner) [
          | inl written ↦ inl (rw (found, expected, legal, named, written) refl)
          | inr refused ↦ inr (rw (found, expected, legal, named, refused) refl)
        ],
      )

  -- In a sequenced log the insertion is not refused where the Event's id is new.
  pub transition_task-run :
      (e : String)
      → IsSequenced s
      → find id s.db.tasks ≡ some t
      → find t.project_id s.db.projects ≡ some p
      → unexpected_task options.expected_status t.status ≡ false
      → contains to (task_transitions t.status) ≡ true
      → text_or options.event_type (task_event_type to) ≡ some e
      → id_used
          (event_in (task_entry t to e options) p (task_written t to options s)).id
          s.db.events
        ≡ false
      → transition_task id to options s
        ≡ (ok tt, logged (task_entry t to e options) p (task_written t to options s))
  unfolding ◌>>=◌ transition_task or_utc_now
  transition_task-run e h found owner expected legal named new =
      let written =
        append_ok (task_entry t to e options) (task_written t to options s) p
          (record { numbered = h.numbered }) owner (no_key t.project_id s.db.events) new in
      rw (found, expected, legal, named, written) refl

-- A change of a Task that was not expected, or that the table does not list, raises
-- `InvalidTransition` and writes nothing.
pub transition_task_refused :
    (id : String) (to : TaskStatus) (options : TaskOptions) (s : Session) (t : Task)
    → find id s.db.tasks ≡ some t
    → (unexpected_task options.expected_status t.status ≡ true)
      ⊎ (contains to (task_transitions t.status) ≡ false)
    → transition_task id to options s ≡ (err invalid_transition, s)
unfolding ◌>>=◌ transition_task
transition_task_refused id to options s t found (inl odd) = rw (found, odd) refl
transition_task_refused id to options s t found (inr illegal) =
    elim (Bool-cases (unexpected_task options.expected_status t.status)) [
      | inl odd ↦ rw (found, odd) refl
      | inr usual ↦ rw (found, usual, illegal) refl
    ]

pub transition_task_missing :
    (id : String) (to : TaskStatus) (options : TaskOptions) (s : Session)
    → find id s.db.tasks ≡ none
    → transition_task id to options s ≡ (err lookup_error, s)
unfolding ◌>>=◌ transition_task
transition_task_missing id to options s missing = rw missing refl
