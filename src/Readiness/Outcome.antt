-- ===== src/Readiness/Outcome.antt =====
-- What `reconcile` may have changed however it ends, also where an insertion is refused on the way.
use mathlib.Core.Path.{subst}
use semi_automated_research.Base.{
  String, ◌≡◌, refl, sym, ap, text_eq, ◌∙◌, ◌⊎◌, inl, inr, true, Option, some, List, [], ◌∷◌, ◌==◌,
  string_eq, Bool-cases, Option-cases, if◌then◌else◌,
}
use semi_automated_research.Base.Exec.{Result, ok, err, pure, collect, ◌>>=◌}
use semi_automated_research.Base.Exec.Keeps.{After}
use semi_automated_research.Domain.TaskStatus.{TaskStatus, task_status_eq}
use semi_automated_research.Db.Table.{find}
use semi_automated_research.Db.Models.{Task, task_row, project_row}
use semi_automated_research.Db.Session.{Session}
use semi_automated_research.EventLog.Sequence.{logged, unlogged}
use semi_automated_research.Transitions.{transition_task}
use semi_automated_research.Transitions.Run.{
  task_written, transition_task-cases, transition_task_refused, transition_task_missing,
}
use semi_automated_research.Invariant.{IsValid}
use semi_automated_research.Invariant.Flush.{written, select_ok}
use semi_automated_research.Readiness.Valid.{ready_if_satisfied-IsValid}
use semi_automated_research.Readiness.{
  statuses_of, dependency_states, all_succeeded, ready_if_satisfied,
}
use semi_automated_research.Readiness.Round.{
  satisfied, status_in, status_of, expect_pending, new_row, new_row_found, new_row_status,
  new_statuses, all_succeeded-store,
}

-- A status is as it was, or the Task is READY and its dependencies had succeeded.
abbrev pub Follows : Session → Session → Type 0
Follows s s' =
    (j : String)
    → (status_in s' j ≡ status_in s j)
      ⊎ ((status_in s' j ≡ some TaskStatus.ready) × (satisfied s.db j ≡ true))

pub record IsSafe (s s' : Session) : Type 0 where
  pub follows : Follows s s'
  pub agrees : (y : String) → satisfied s'.db y ≡ satisfied s.db y

written-IsSafe : (s : Session) → IsSafe s (written s)
written-IsSafe s = record { follows = λ j. inl refl; agrees = λ y. refl }

module _ (id : String) (s : Session) (h : IsValid s) (done : satisfied s.db id ≡ true) where
  asked :
      ready_if_satisfied id s
      ≡ (transition_task id TaskStatus.ready expect_pending >>= λ u. pure (some id)) (written s)
  unfolding ready_if_satisfied ◌>>=◌
  asked = rw (select_ok (dependency_states id) s h) (rw done refl)

  module _ (t : Task) (found : find id s.db.tasks ≡ some t)
      (waiting : t.status ≡ TaskStatus.pending) where
    new-Follows :
        (s' : Session)
        → ((j : String)
            → status_in s' j ≡ (if id == j then some TaskStatus.ready else status_in s j))
        → Follows s s'
    new-Follows s' changed j = elim (Bool-cases (id == j)) [
      | inl own ↦
          inr (
            rw own at (changed j),
            subst (λ k. satisfied s.db k ≡ true) ((text_eq id j).0 own) done,
          )
      | inr other ↦ inl (rw other at (changed j))
    ]

    abbrev moving : Session
    moving = task_written t TaskStatus.ready expect_pending (written s)

    moving-IsSafe :
        (s' : Session)
        → s'.db.tasks ≡ moving.db.tasks
        → s'.db.task_dependencies ≡ s.db.task_dependencies
        → IsSafe s s'
    unfolding dependency_states
    moving-IsSafe s' tasks dependencies = record {
      follows =
          new-Follows s'
            λ j. ap (λ ts. status_of (find j ts)) tasks ∙ new_statuses id s t h found waiting j;
      agrees = λ y.
          ap (λ ts. all_succeeded (statuses_of s'.db.task_dependencies ts y)) tasks
          ∙ ap (λ ds. all_succeeded (statuses_of ds moving.db.tasks y)) dependencies
          ∙ all_succeeded-store s.db.task_dependencies s.db.tasks y t
              (new_row id s t h found waiting) (new_row_found id s t h found waiting)
              (rw waiting refl) (rw (new_row_status id s t h found waiting) refl);
    }

    pending-IsSafe : IsSafe s (ready_if_satisfied id s).1
    unfolding ◌>>=◌ pure logged unlogged
    pending-IsSafe =
        let (p, owner) = h.task_owned id t found in
        let (e, _, outcome) =
          transition_task-cases id TaskStatus.ready expect_pending (written s) t p found owner
            (rw waiting refl) (rw waiting refl) in
        elim outcome [
          | inl moved ↦ rw (asked, moved) (moving-IsSafe _ refl refl)
          | inr refused ↦ rw (asked, refused) (moving-IsSafe _ refl refl)
        ]

  done-IsSafe : IsSafe s (ready_if_satisfied id s).1
  unfolding ◌>>=◌ pure
  done-IsSafe = elim (Option-cases (find id s.db.tasks)) [
    | inl missing ↦
        rw (asked, transition_task_missing id TaskStatus.ready expect_pending (written s) missing)
          (written-IsSafe s)
    | inr (t, found) ↦ elim (Bool-cases (t.status == TaskStatus.pending)) [
      | inl waiting ↦
          pending-IsSafe t found ((task_status_eq.beq_iff t.status TaskStatus.pending).0 waiting)
      | inr gone ↦
          rw
            (
              asked,
              transition_task_refused id TaskStatus.ready expect_pending (written s) t found
                  (inl (rw gone refl)),
            )
            (written-IsSafe s)
    ]
  ]

-- One round, whatever the Task.
ready-IsSafe : (id : String) (s : Session) → IsValid s → IsSafe s (ready_if_satisfied id s).1
unfolding ready_if_satisfied ◌>>=◌
ready-IsSafe id s h = elim (Bool-cases (satisfied s.db id)) [
  | inl done ↦ done-IsSafe id s h done
  | inr waits ↦ rw (select_ok (dependency_states id) s h) (rw waits (written-IsSafe s))
]

then-IsSafe : (s s' s'' : Session) → IsSafe s s' → IsSafe s' s'' → IsSafe s s''
then-IsSafe s s' s'' a b = record {
  follows = λ j. elim (b.follows j) [
    | inl same ↦ elim (a.follows j) [
      | inl old ↦ inl (same ∙ old)
      | inr (ready, met) ↦ inr (same ∙ ready, met)
    ]
    | inr (ready, met) ↦ inr (ready, sym (a.agrees j) ∙ met)
  ];
  agrees = λ y. b.agrees y ∙ a.agrees y;
}

-- The loop, over any ids.
pub loop-IsSafe :
    (ids : List String) (s : Session) → IsValid s → IsSafe s (collect ready_if_satisfied ids s).1
unfolding collect pure ◌>>=◌
loop-IsSafe [] s h = record { follows = λ j. inl refl; agrees = λ y. refl }
loop-IsSafe (id ∷ ids) s h =
    on_result (ready_if_satisfied id s) refl (ready-IsSafe id s h)
      ((ready_if_satisfied-IsValid id).at s h) (loop-IsSafe ids)
  where
    on_rest :
        (found : Option String) (s' : Session) (y : Result (List String) × Session)
        → ready_if_satisfied id s ≡ (ok found, s')
        → collect ready_if_satisfied ids s' ≡ y
        → IsSafe s y.1
        → IsSafe s (collect ready_if_satisfied (id ∷ ids) s).1
    on_rest found s' (ok others, end) ran onward safe = rw (ran, onward) safe
    on_rest found s' (err e, end) ran onward safe = rw (ran, onward) safe

    on_result :
        (x : Result (Option String) × Session)
        → ready_if_satisfied id s ≡ x
        → IsSafe s x.1
        → After IsValid x
        → ((s' : Session) → IsValid s' → IsSafe s' (collect ready_if_satisfied ids s').1)
        → IsSafe s (collect ready_if_satisfied (id ∷ ids) s).1
    on_result (err e, s') ran safe valid onward = rw ran safe
    on_result (ok found, s') ran safe valid onward =
        on_rest found s' (collect ready_if_satisfied ids s') ran refl
          (then-IsSafe s s' (collect ready_if_satisfied ids s').1 safe (onward s' valid))
