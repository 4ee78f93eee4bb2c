-- ===== src/Readiness/Round.antt =====
-- One round of the loop of `reconcile`: `ready_if_satisfied` on one PENDING Task.
use mathlib.Core.Path.{subst}
use semi_automated_research.Base.{
  String, ◌≡◌, refl, sym, ◌∙◌, inl, inr, Bool, true, false, Option, none, some, List, [], ◌∷◌,
  arith, ◌==◌, string_eq, ◌&&◌, text_eq, Bool-cases, if◌then◌else◌,
}
use semi_automated_research.Base.Exec.{ok, ◌>>=◌}
use semi_automated_research.Domain.TaskStatus.{TaskStatus, task_status_eq}
use semi_automated_research.Db.Table.{find, find-store, find_self, id-find, store}
use semi_automated_research.Db.Models.{Project, Task, TaskDependency, project_row, task_row}
use semi_automated_research.Db.Session.{Db, Session, given_or_now}
use semi_automated_research.EventLog.Sequence.{logged}
use semi_automated_research.Transitions.{TaskOptions, task_defaults, moved_task}
use semi_automated_research.Transitions.Run.{
  task_entry, task_written, transition_task-cases, transition_task-run,
}
use semi_automated_research.EventLog.Fresh.{IsUnique, IsFresh, event_in-fresh, logged-IsFresh}
use semi_automated_research.Invariant.{IsValid}
use semi_automated_research.Invariant.Flush.{written, written-IsValid, select_ok}
use semi_automated_research.Invariant.Transitions.{moved_task_keys}
use semi_automated_research.Readiness.Valid.{ready_if_satisfied-IsValid}
use semi_automated_research.Readiness.{
  statuses_of, dependency_states, all_succeeded, ready_if_satisfied,
}

abbrev pub expect_pending : TaskOptions
expect_pending = record task_defaults { expected_status = some TaskStatus.pending }

-- The statuses of two versions of a Task table agree on which dependencies have succeeded, if the
-- written Task had not succeeded and has not now.
pub all_succeeded-store :
    (ds : List TaskDependency) (tasks : List Task) (id : String) (old new : Task)
    → find new.id tasks ≡ some old
    → (old.status == TaskStatus.succeeded) ≡ false
    → (new.status == TaskStatus.succeeded) ≡ false
    → all_succeeded (statuses_of ds (store new tasks) id) ≡ all_succeeded (statuses_of ds tasks id)
unfolding statuses_of
all_succeeded-store [] tasks id old new found before after = refl
all_succeeded-store (d ∷ ds) tasks id old new found before after =
    let rest = all_succeeded-store ds tasks id old new found before after in
    elim (Bool-cases (d.task_id == id)) [
      | inr other ↦ rw other rest
      | inl mine ↦
          rw (mine, find-store d.depends_on_task_id new old tasks found)
            (elim (Bool-cases (new.id == d.depends_on_task_id)) [
              | inl same ↦ ground (
                arith,
                same,
                rest,
                before,
                after,
                there ((text_eq new.id d.depends_on_task_id).0 same),
              )
              | inr differs ↦ ground (arith, differs, rest)
            ])
    ]
  where
    there : {k : String} → new.id ≡ k → find k tasks ≡ some old
    there e = subst (λ k. find k tasks ≡ some old) e found

module _ (id : String) (s : Session) (t : Task) (h : IsValid s)
    (found : find id s.db.tasks ≡ some t) where
  pub ready_step_no :
      all_succeeded (dependency_states id s.db) ≡ false
      → ready_if_satisfied id s ≡ (ok none, written s)
  unfolding ready_if_satisfied ◌>>=◌
  ready_step_no waits = rw (select_ok (dependency_states id) s h) (rw waits refl)

  moving-IsFresh : IsFresh s → IsFresh (task_written t TaskStatus.ready expect_pending (written s))
  moving-IsFresh fresh n above = fresh n (omega (arith, above))

  ready_step_yes :
      all_succeeded (dependency_states id s.db) ≡ true
      → t.status ≡ TaskStatus.pending
      → IsFresh s
      → (p : Project) × (e : String) × (ready_if_satisfied id s ≡ (
        ok (some id),
        logged
            (task_entry t TaskStatus.ready e expect_pending)
            p
            (task_written t TaskStatus.ready expect_pending (written s)),
      ))
  unfolding ready_if_satisfied ◌>>=◌
  ready_step_yes done waiting fresh =
      let (p, owner) = h.task_owned id t found in
      let (e, named, _) =
        transition_task-cases id TaskStatus.ready expect_pending (written s) t p found owner
          (rw waiting refl) (rw waiting refl) in
      let moved =
        transition_task-run id TaskStatus.ready expect_pending (written s) t p e
          (written-IsValid s h).sequenced found owner (rw waiting refl) (rw waiting refl) named
          (event_in-fresh (task_entry t TaskStatus.ready e expect_pending) p
            (task_written t TaskStatus.ready expect_pending (written s)) (moving-IsFresh fresh)) in
      (p, e, rw (select_ok (dependency_states id) s h) (rw (done, moved) refl))

abbrev pub satisfied : Db → String → Bool
satisfied db id = all_succeeded (dependency_states id db)

abbrev pub status_of : Option Task → Option TaskStatus
status_of none = none
status_of (some t) = some t.status

abbrev pub status_in : Session → String → Option TaskStatus
status_in s id = status_of (find id s.db.tasks)

-- What one round of the loop has done.
pub record RoundResult (id : String) (s : Session) : Type 0 where
  pub after : Session
  pub ran : ready_if_satisfied id s ≡ (ok (if satisfied s.db id then some id else none), after)
  pub valid : IsValid after
  pub fresh : IsFresh after
  pub same_env : after.env ≡ s.env
  pub agrees : (y : String) → satisfied after.db y ≡ satisfied s.db y
  pub statuses :
      (j : String)
      → status_in after j
        ≡ (if satisfied s.db id && id == j then some TaskStatus.ready else status_in s j)

module _ (id : String) (s : Session) (t : Task) (h : IsValid s)
    (found : find id s.db.tasks ≡ some t) (waiting : t.status ≡ TaskStatus.pending) where
  round_no : satisfied s.db id ≡ false → IsFresh s → RoundResult id s
  round_no waits fresh = record {
    fresh = fresh;
    same_env = refl;
    after = written s;
    ran = rw waits (ready_step_no id s t h found waits);
    valid = written-IsValid s h;
    agrees = λ y. refl;
    statuses = λ j. rw waits refl;
  }

  abbrev pub new_row : Task
  new_row =
      let (now, n) = given_or_now expect_pending.now (written s) in
      moved_task TaskStatus.ready now t

  pub new_row_found : find new_row.id s.db.tasks ≡ some t
  new_row_found =
      let (now, n) = given_or_now expect_pending.now (written s) in
      let (same, _, _) = moved_task_keys TaskStatus.ready now t in
      subst (λ k. find k s.db.tasks ≡ some t) (sym same) (find_self id s.db.tasks t found)

  pub new_row_status : new_row.status ≡ TaskStatus.ready
  new_row_status =
      let (now, n) = given_or_now expect_pending.now (written s) in
      (moved_task_keys TaskStatus.ready now t).2

  new_row_id : new_row.id ≡ id
  new_row_id =
      let (now, n) = given_or_now expect_pending.now (written s) in
      (moved_task_keys TaskStatus.ready now t).0 ∙ id-find id s.db.tasks t found

  pub new_statuses :
      (j : String)
      → status_of (find j (store new_row s.db.tasks))
        ≡ (if id == j then some TaskStatus.ready else status_in s j)
  new_statuses j =
      rw (find-store j new_row t s.db.tasks new_row_found, new_row_id)
        (elim (Bool-cases (id == j)) [
          | inl here ↦ rw (here, new_row_status) refl
          | inr other ↦ rw other refl
        ])

  round_yes : satisfied s.db id ≡ true → IsUnique s.env → IsFresh s → RoundResult id s
  unfolding logged dependency_states
  round_yes done unique fresh =
      let (p, e, moved) = ready_step_yes id s t h found done waiting fresh in
      record {
        fresh =
            logged-IsFresh (task_entry t TaskStatus.ready e expect_pending) p
              (task_written t TaskStatus.ready expect_pending (written s)) unique
              (moving-IsFresh id s t h found fresh);
        same_env = refl;
        after =
            logged (task_entry t TaskStatus.ready e expect_pending) p
              (task_written t TaskStatus.ready expect_pending (written s));
        ran = rw done moved;
        valid = rw moved at ((ready_if_satisfied-IsValid id).at s h);
        agrees = λ y.
            all_succeeded-store s.db.task_dependencies s.db.tasks y t new_row new_row_found
              (rw waiting refl) (rw new_row_status refl);
        statuses = λ j. rw done (new_statuses j);
      }

  pub round : IsUnique s.env → IsFresh s → RoundResult id s
  round unique fresh = elim (Bool-cases (satisfied s.db id)) [
    | inl done ↦ round_yes done unique fresh
    | inr waits ↦ round_no waits fresh
  ]
