-- ===== src/Readiness/Ready.antt =====
-- What `reconcile` does: it readies exactly the due PENDING Tasks whose dependencies have succeeded.
use mathlib.Core.Path.{fun_ext, subst}
use mathlib.Core.Option.{some-injective}
use semi_automated_research.Base.{
  ℕ, String, ◌≡◌, refl, sym, ◌∙◌, ap, inl, inr, Bool, true, false, not, ◌&&◌, ◌||◌, ◌==◌, leb, all,
  Option, none, some, List, [], ◌∷◌, map, arith, string_eq, contains, where_rows, text_eq,
  text_eq_refl, Bool-cases, Option-cases, if◌then◌else◌,
}
use semi_automated_research.Base.Exec.{ok, pure, gets, ◌>>=◌, collect}
use semi_automated_research.Domain.TaskStatus.{TaskStatus, task_status_eq}
use semi_automated_research.Db.Table.{find}
use semi_automated_research.Db.Keys.{Distinct}
use semi_automated_research.Db.Models.{Task, TaskDependency, project_row, task_row}
use semi_automated_research.Db.Session.{Db, Session, given_or_now, or_utc_now}
use semi_automated_research.Invariant.{IsValid}
use semi_automated_research.Invariant.Flush.{written, written-IsValid, select_ok, clock-IsValid}
use semi_automated_research.EventLog.Fresh.{IsUnique, IsFresh}
use semi_automated_research.Readiness.{
  statuses_of, dependency_states, all_succeeded, is_candidate, candidates, ready_if_satisfied,
  reconcile,
}
use semi_automated_research.Readiness.Round.{RoundResult, round, satisfied, status_in}

-- The ids are those of PENDING Tasks, each once.
abbrev pub ArePending : List String → Session → Type 0
ArePending [] s = Unit
ArePending (id ∷ ids) s =
    (status_in s id ≡ some TaskStatus.pending) × (contains id ids ≡ false) × ArePending ids s

pending_row :
    (id : String) (s : Session)
    → status_in s id ≡ some TaskStatus.pending
    → (t : Task) × (find id s.db.tasks ≡ some t) × (t.status ≡ TaskStatus.pending)
pending_row id s h = elim (Option-cases (find id s.db.tasks)) [
  | inl missing ↦ cc (rw missing at h)
  | inr (t, found) ↦ (t, found, some-injective t.status TaskStatus.pending (rw found at h))
]

-- Other Tasks stay PENDING through a round.
ArePending-after :
    (id : String) (ids : List String) (s : Session) (r : RoundResult id s)
    → contains id ids ≡ false
    → ArePending ids s
    → ArePending ids r.after
ArePending-after id [] s r apart h = tt
ArePending-after id (x ∷ ids) s r apart h = (
  r.statuses x ∙ ground (arith, text_eq id x, h.0),
  h.1,
  ArePending-after id ids s r (ground arith) h.2,
)

-- What the whole loop has done.
pub record LoopResult (ids : List String) (s : Session) : Type 0 where
  pub after : Session
  pub ran : collect ready_if_satisfied ids s ≡ (ok (where_rows (satisfied s.db) ids), after)
  pub valid : IsValid after
  pub statuses :
      (j : String)
      → status_in after j ≡ (
          if contains j (where_rows (satisfied s.db) ids)
          then some TaskStatus.ready
          else status_in s j)

readied_cons :
    (id : String) (ids : List String) (s : Session) (r : RoundResult id s)
    → contains id ids ≡ false
    → LoopResult ids r.after
    → LoopResult (id ∷ ids) s
unfolding collect ◌>>=◌
readied_cons id ids s r apart rest =
    let same : where_rows (satisfied r.after.db) ids ≡ where_rows (satisfied s.db) ids =
      ap (λ f. where_rows f ids) (fun_ext r.agrees) in
    record {
      after = rest.after;
      ran =
          rw (r.ran, rest.ran)
            (elim (Bool-cases (satisfied s.db id)) [
              | inl done ↦ rw (done, same) refl
              | inr waits ↦ rw (waits, same) refl
            ]);
      valid = rest.valid;
      statuses = λ j.
          rest.statuses j
          ∙ rw same (elim (Bool-cases (satisfied s.db id)) [
            | inl done ↦ ground (arith, done, r.statuses j, text_eq id j, text_eq j id)
            | inr waits ↦ ground (arith, waits, r.statuses j)
          ]);
    }

-- The loop, over any PENDING Tasks of a valid session.
pub readied :
    (ids : List String) (s : Session)
    → IsValid s
    → IsUnique s.env
    → IsFresh s
    → ArePending ids s
    → LoopResult ids s
unfolding collect pure
readied [] s h unique fresh waiting = record {
  after = s;
  ran = refl;
  valid = h;
  statuses = λ j. refl;
}
readied (id ∷ ids) s h unique fresh waiting =
    let (t, found, is_pending) = pending_row id s waiting.0 in
    let r = round id s t h found is_pending unique fresh in
    readied_cons id ids s r waiting.1 (
      readied ids r.after r.valid (subst IsUnique (sym r.same_env) unique) r.fresh
        (ArePending-after id ids s r waiting.1 waiting.2))

absent_id :
    (id : String) (current : ℕ) (tasks : List Task)
    → find id tasks ≡ none
    → contains id (map (λ t. t.id) (where_rows (is_candidate current) tasks)) ≡ false
unfolding find
absent_id id current [] h = refl
absent_id id current (t ∷ tasks) h =
    ground (arith, absent_id id current tasks, text_eq t.id id, text_eq id t.id)

-- What the query selects is PENDING, each Task once.
candidates_pending :
    (current : ℕ) (tasks : List Task)
    → Distinct tasks
    → (s : Session) → ((t : Task) → find t.id tasks ≡ some t → find t.id s.db.tasks ≡ some t)
    → ArePending (map (λ t. t.id) (where_rows (is_candidate current) tasks)) s
unfolding find
candidates_pending current [] h s same = tt
candidates_pending current (t ∷ tasks) h s same =
    let rest =
      candidates_pending current tasks h.1 s
        (λ u held. same u (ground (arith, held, h.0, text_eq t.id u.id))) in
    elim (Bool-cases (is_candidate current t)) [
      | inl yes_it_is ↦ rw yes_it_is (
        rw (same t (rw (text_eq_refl t.id) refl)) (ground arith),
        absent_id t.id current tasks h.0,
        rest,
      )
      | inr no_it_is ↦ rw no_it_is rest
    ]

-- The Task is PENDING, and its instant has come if it waits for one.
abbrev pub is_waiting : ℕ → Task → Bool
is_waiting current t =
    t.status == TaskStatus.pending
    && elim t.not_before [ none ↦ true | some instant ↦ leb instant current ]

abbrev pub has_succeeded : Option Task → Bool
has_succeeded none = true
has_succeeded (some t) = t.status == TaskStatus.succeeded

-- Every Task of the table that the rows of `task_dependencies` make it depend on has SUCCEEDED.
abbrev pub is_met : Db → String → Bool
is_met db id =
    all (λ d. not (d.task_id == id) || has_succeeded (find d.depends_on_task_id db.tasks))
      db.task_dependencies

statuses_of-met :
    (ds : List TaskDependency) (tasks : List Task) (id : String)
    → all_succeeded (statuses_of ds tasks id)
      ≡ all (λ d. not (d.task_id == id) || has_succeeded (find d.depends_on_task_id tasks)) ds
unfolding statuses_of
statuses_of-met [] tasks id = refl
statuses_of-met (d ∷ ds) tasks id =
    let rest = statuses_of-met ds tasks id in
    elim (Bool-cases (d.task_id == id)) [
      | inr other ↦ rw other rest
      | inl mine ↦ elim (Option-cases (find d.depends_on_task_id tasks)) [
        | inl missing ↦ rw (mine, missing) rest
        | inr (t, found) ↦ rw (mine, found, rest) refl
      ]
    ]

pub satisfied-met : (db : Db) (id : String) → satisfied db id ≡ is_met db id
unfolding dependency_states
satisfied-met db id = statuses_of-met db.task_dependencies db.tasks id

-- The due Tasks, as the database reads them, whose dependencies have succeeded.
abbrev pub to_ready : ℕ → Session → List String
to_ready current s =
    where_rows (is_met s.db)
      (map (λ t. t.id) (where_rows (is_waiting current) (s.env.scan s.db.tasks)))

-- A query reads the rows of a table of Tasks with different ids, each once, in whatever order.
abbrev pub IsScan : (List Task → List Task) → Type 0
IsScan scan =
    (tasks : List Task)
    → Distinct tasks
    → Distinct (scan tasks) × ((id : String) → find id (scan tasks) ≡ find id tasks)

begun-IsFresh :
    (now : Option ℕ) (s : Session)
    → IsFresh s
    → IsFresh (record s { calls = (given_or_now now s).1 })
begun-IsFresh none s fresh n above = fresh n (omega (arith, above))
begun-IsFresh (some t) s fresh n above = fresh n above

due-candidate : (current : ℕ) (t : Task) → is_candidate current t ≡ is_waiting current t
due-candidate current t = elim (Option-cases t.not_before) [
  | inl none_set ↦ rw none_set refl
  | inr (instant, set) ↦ rw set refl
]

-- From a valid session, where the ids that `uuid4` is still to answer are new and the database reads
-- each Task once, in whatever order, `reconcile` raises nothing. It returns exactly the PENDING Tasks
-- whose `not_before` has come and all of whose dependencies in `task_dependencies` have SUCCEEDED.
-- Afterwards those are READY, every other Task has the status that it had, and the session is valid.
pub reconcile_lem :
    (now : Option ℕ) (s : Session)
    → IsValid s
    → IsUnique s.env
    → IsFresh s
    → IsScan s.env.scan
    → (after : Session) × (reconcile now s ≡ (ok (to_ready (given_or_now now s).0 s), after))
      × IsValid after
      × ((id : String)
          → status_in after id ≡ (
              if contains id (to_ready (given_or_now now s).0 s)
              then some TaskStatus.ready
              else status_in s id))
unfolding reconcile or_utc_now candidates ◌>>=◌ gets
reconcile_lem now s h unique fresh scans =
    let (current, n) = given_or_now now s in
    let started = record s { calls = n } in
    let begun : IsValid started = (clock-IsValid now).at s h in
    let (distinct, same) = scans s.db.tasks h.task_keys in
    let all_pending =
      candidates_pending current (s.env.scan s.db.tasks) distinct (written started)
        (λ t held. sym (same t.id) ∙ held) in
    let later : IsFresh (written started) = begun-IsFresh now s fresh in
    let r =
      readied (candidates s.env.scan current s.db) (written started) (written-IsValid started begun)
        unique later all_pending in
    let due : candidates s.env.scan current s.db
        ≡ map (λ t. t.id) (where_rows (is_waiting current) (s.env.scan s.db.tasks)) =
      ap (λ f. map (λ t. t.id) (where_rows f (s.env.scan s.db.tasks)))
        (fun_ext (due-candidate current)) in
    let spec : where_rows (satisfied s.db) (candidates s.env.scan current s.db)
        ≡ to_ready current s =
      ap (λ f. where_rows f (candidates s.env.scan current s.db)) (fun_ext (satisfied-met s.db))
      ∙ ap (where_rows (is_met s.db)) due in
    (
      r.after,
      rw (select_ok (candidates s.env.scan current) started begun, r.ran)
          (ap (λ ids. (ok ids, r.after)) spec),
      r.valid,
      λ id.
          r.statuses id
          ∙ ap (λ ids. if contains id ids then some TaskStatus.ready else status_in s id) spec,
    )
