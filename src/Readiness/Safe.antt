-- ===== src/Readiness/Safe.antt =====
-- A Task that `reconcile` has readied depends on SUCCEEDED Tasks only.
use mathlib.Core.List.{Memᴰ}
use mathlib.Core.Path.{subst}
use mathlib.Core.Option.{some-injective}
use semi_automated_research.Base.{
  ℕ, String, ◌≡◌, sym, ◌∙◌, inl, inr, true, Option, some, List, [], ◌∷◌, arith, ◌==◌, string_eq,
  text_eq, Bool-cases, Option-cases, &&-true, ap,
}
use semi_automated_research.Domain.TaskStatus.{TaskStatus, task_status_eq}
use semi_automated_research.Db.Table.{find}
use semi_automated_research.Db.Models.{Task, TaskDependency, task_row}
use semi_automated_research.Db.Session.{Session, given_or_now}
use semi_automated_research.Invariant.{IsValid}
use semi_automated_research.Readiness.{
  statuses_of, dependency_states, all_succeeded, candidates, ready_if_satisfied, reconcile,
}
use semi_automated_research.Readiness.Round.{status_in}
use semi_automated_research.Base.Exec.{collect, gets, ◌>>=◌}
use semi_automated_research.Db.Session.{or_utc_now}
use semi_automated_research.Invariant.Flush.{written, written-IsValid, select_ok, clock-IsValid}
use semi_automated_research.Readiness.Outcome.{loop-IsSafe}

-- Of a Task's dependencies that have succeeded, so have the rest.
rest_succeeded :
    (x : TaskDependency) (ds : List TaskDependency) (tasks : List Task) (id : String)
    → all_succeeded (statuses_of (x ∷ ds) tasks id) ≡ true
    → all_succeeded (statuses_of ds tasks id) ≡ true
unfolding statuses_of
rest_succeeded x ds tasks id h = elim (Bool-cases (x.task_id == id)) [
  | inl mine ↦ elim (Option-cases (find x.depends_on_task_id tasks)) [
    | inl missing ↦ rw (mine, missing) at h
    | inr (t, found) ↦ (&&-true _ _ (rw (mine, found) at h)).1
  ]
  | inr other ↦ rw other at h
]

first_succeeded :
    (x : TaskDependency) (ds : List TaskDependency) (tasks : List Task) (id : String) (t : Task)
    → all_succeeded (statuses_of (x ∷ ds) tasks id) ≡ true
    → x.task_id ≡ id
    → find x.depends_on_task_id tasks ≡ some t
    → (t.status == TaskStatus.succeeded) ≡ true
unfolding statuses_of
first_succeeded x ds tasks id t h own found =
    (&&-true _ _ (rw ((text_eq x.task_id id).1 own, found) at h)).0

statuses_of-all :
    (ds : List TaskDependency) (tasks : List Task) (id : String) (d : TaskDependency) (t : Task)
    → all_succeeded (statuses_of ds tasks id) ≡ true
    → Memᴰ d ds
    → d.task_id ≡ id
    → find d.depends_on_task_id tasks ≡ some t
    → (t.status == TaskStatus.succeeded) ≡ true
statuses_of-all [] tasks id d t h listed own found = elim listed [ ]
statuses_of-all (x ∷ ds) tasks id d t h (Memᴰ.head same) own found =
    first_succeeded x ds tasks id t h (ap (λ e. e.task_id) (sym same) ∙ own)
      (subst (λ e. find e.depends_on_task_id tasks ≡ some t) same found)
statuses_of-all (x ∷ ds) tasks id d t h (Memᴰ.tail there) own found =
    statuses_of-all ds tasks id d t (rest_succeeded x ds tasks id h) there own found

-- In a valid session, a Task that is PENDING before `reconcile` and READY after it depends on no
-- Task but those that have SUCCEEDED.
pub reconcile_safe :
    (now : Option ℕ) (s : Session) (id : String) (d : TaskDependency) (t : Task)
    → IsValid s
    → status_in s id ≡ some TaskStatus.pending
    → status_in (reconcile now s).1 id ≡ some TaskStatus.ready
    → Memᴰ d s.db.task_dependencies
    → d.task_id ≡ id
    → find d.depends_on_task_id s.db.tasks ≡ some t
    → t.status ≡ TaskStatus.succeeded
unfolding dependency_states reconcile or_utc_now ◌>>=◌ gets
reconcile_safe now s id d t h before after listed own found =
    let begun : IsValid (record s { calls = (given_or_now now s).1 }) =
      (clock-IsValid now).at s h in
    let started = record s { calls = (given_or_now now s).1 } in
    let query = candidates s.env.scan (given_or_now now s).0 in
    let all = loop-IsSafe (query s.db) (written started) (written-IsValid started begun) in
    let ready : status_in (collect ready_if_satisfied (query s.db) (written started)).1 id
        ≡ some TaskStatus.ready =
      rw (select_ok query started begun) at after in
    elim (all.follows id) [
      | inl same ↦ absurd (pending_not_ready (sym before ∙ sym same ∙ ready))
      | inr (_, met) ↦
          (task_status_eq.beq_iff t.status TaskStatus.succeeded).0
            (statuses_of-all s.db.task_dependencies s.db.tasks id d t met listed own found)
    ]
  where
    pending_not_ready : some TaskStatus.pending ≡ some TaskStatus.ready → ⊥
    pending_not_ready e = ground (arith, some-injective TaskStatus.pending TaskStatus.ready e)
