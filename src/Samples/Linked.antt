-- ===== src/Samples/Linked.antt =====
-- A session with a SUCCEEDED Task and a PENDING one that depends on it.
use mathlib.Core.List.{Memᴰ}
use mathlib.Core.Path.{subst}
use mathlib.Core.Option.{some-injective}
use semi_automated_research.Base.{
  String, ◌≡◌, refl, inl, inr, some, [], ◌∷◌, arith, ◌==◌, string_eq, Bool-cases,
}
use semi_automated_research.Base.Exec.{pure, collect, ◌>>=◌}
use semi_automated_research.Domain.TaskStatus.{TaskStatus, task_status_eq}
use semi_automated_research.Db.Table.{find, store}
use semi_automated_research.Db.Models.{Task, TaskDependency, task_row, project_row, compute_job_row}
use semi_automated_research.Db.Session.{
  Db, Session, the_task, set_task, or_utc_now, new_id, or_new_id, given_or_drawn, utc_now,
}
use semi_automated_research.Db.Session.Guard.{
  flush, select, task_audited, enforce_audited_state_changes, prevent_artifact_identity_mutation,
}
use semi_automated_research.EventLog.{append, add_event}
use semi_automated_research.EventLog.Sequence.{counter}
use semi_automated_research.Transitions.{transition_task, moved_task}
use semi_automated_research.Invariant.{IsValid, IsSoundTask, IsOwned}
use semi_automated_research.Readiness.{
  reconcile, candidates, ready_if_satisfied, dependency_states, statuses_of,
}
use semi_automated_research.Readiness.Safe.{reconcile_safe}
use semi_automated_research.Samples.{sample_env, project_1, task_1}

abbrev pub done_task : Task
done_task = record task_1 {
  status = TaskStatus.succeeded;
  started_at = some 1;
  attempt_count = 1;
  finished_at = some 2;
}

abbrev waiting_task : Task
waiting_task = record task_1 { id = "tsk_2"; idempotency_key = "run-2" }

abbrev edge : TaskDependency
edge = record { task_id = "tsk_2"; depends_on_task_id = "tsk_1"; created_at = 3 }

abbrev linked_db : Db
linked_db = record {
  projects = project_1 ∷ [];
  task_dependencies = edge ∷ [];
  task_artifacts = [];
  tasks = done_task ∷ waiting_task ∷ [];
  events = [];
  compute_jobs = [];
  artifacts = [];
}

abbrev pub linked : Session
linked = record {
  env = sample_env;
  calls = 0;
  flushed = linked_db;
  db = linked_db;
  new_events = [];
}

-- A Task of the session is one of the two.
one_of_two :
    (P : Task → Type 0) (id : String) (t : Task)
    → P done_task
    → P waiting_task
    → find id linked_db.tasks ≡ some t
    → P t
unfolding find
one_of_two P id t first second found = elim (Bool-cases ("tsk_1" == id)) [
  | inl one ↦ subst P (some-injective done_task t (rw one at found)) first
  | inr other ↦ elim (Bool-cases ("tsk_2" == id)) [
    | inl two ↦ subst P (some-injective waiting_task t (rw (other, two) at found)) second
    | inr neither ↦ absurd (cc (rw (other, neither) at found))
  ]
]

pub linked-IsValid : IsValid linked
unfolding find counter task_audited enforce_audited_state_changes prevent_artifact_identity_mutation
linked-IsValid = record {
  sequenced = record {
    numbered =
        λ p. elim (Bool-cases ("prj_1" == p)) [ inl own ↦ rw own refl | inr other ↦ rw other refl ];
  };
  audited = refl;
  kept = refl;
  task_keys = (refl, (refl, tt));
  job_keys = tt;
  artifact_keys = tt;
  task_flushed = λ id gone. gone;
  job_flushed = λ id gone. gone;
  artifact_flushed = λ id gone. gone;
  task_owned = λ id t.
      one_of_two (λ t. IsOwned t.project_id linked) id t (project_1, refl) (project_1, refl);
  job_owned = λ id j found. absurd (ground arith);
  task_sound = λ id t.
      one_of_two IsSoundTask id t
        (record {
          started = λ _. refl;
          attempted = λ _. omega arith;
          finished = λ _. refl;
          unowned = λ _. refl;
          unleased = λ _. refl;
        })
        (record {
          started = λ e. absurd (ground arith);
          attempted = λ e. absurd (ground arith);
          finished = λ e. absurd (ground arith);
          unowned = λ _. refl;
          unleased = λ _. refl;
        });
  job_sound = λ id j found. absurd (ground arith);
}

reconcile_safe_example : done_task.status ≡ TaskStatus.succeeded
unfolding ◌>>=◌ pure collect new_id or_new_id given_or_drawn utc_now or_utc_now append add_event
    find store flush select enforce_audited_state_changes prevent_artifact_identity_mutation
    transition_task moved_task the_task set_task task_audited reconcile candidates
    ready_if_satisfied dependency_states statuses_of
reconcile_safe_example =
    reconcile_safe (some 99) linked "tsk_2" edge done_task linked-IsValid refl refl (Memᴰ.head refl)
      refl refl
