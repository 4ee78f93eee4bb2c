-- ===== src/ProjectState/Valid.antt =====
-- The methods of services/project_state.py keep `IsValid`.
use semi_automated_research.Base.{
  ℕ, String, ◌≡◌, refl, false, Option, none, some, List, [], ◌∷◌, not, any, ||-false, arith,
}
use semi_automated_research.Base.Exec.{Exec, write_unless, integrity_error}
use semi_automated_research.Base.Exec.Keeps.{
  Keeps, keeps_rules, Keeps-write_unless, Keeps-pure, Keeps-bind,
}
use semi_automated_research.Db.Table.{find}
use semi_automated_research.Db.Models.{Task, TaskDependency, project_row, task_row, compute_job_row}
use semi_automated_research.Db.Session.{
  Session, with_new_project, with_new_task, with_new_dependency, with_new_job,
}
use semi_automated_research.Invariant.{IsValid}
use semi_automated_research.Invariant.Flush.{
  flush-IsValid, select-IsValid, the_task-IsValid, new_id-IsValid, or_new_id-IsValid,
  utc_now-IsValid,
}
use semi_automated_research.Invariant.Inserts.{
  with_new_project-IsValid, with_new_task-IsValid, with_new_dependency-IsValid,
  with_new_job-IsValid,
}
use semi_automated_research.Invariant.Writes.{append-IsValid}
use semi_automated_research.ProjectState.Rows.{
  ProjectArgs, TaskArgs, JobArgs, new_project, new_task, new_job, project_clash, task_clash,
  job_clash, is_absent, same_dependency,
}
use semi_automated_research.ProjectState.{
  create_project, add_dependency, add_dependencies, insert_task, or_insert, create_task, insert_job,
  create_compute_job,
}

pub absent-none {ℓ} : {A : Type ℓ} (o : Option A) → not (is_absent o) ≡ false → o ≡ none
absent-none none h = refl
absent-none (some a) h = cc

present-some {ℓ} : {A : Type ℓ} (o : Option A) → is_absent o ≡ false → (a : A) × (o ≡ some a)
present-some none h = cc
present-some (some a) h = (a, refl)

insert_project-IsValid :
    (a : ProjectArgs) (id : String) (t : ℕ)
    → Keeps IsValid (
        write_unless
          (λ s. project_clash (new_project a id t) s.db)
          integrity_error
          (with_new_project (new_project a id t)))
unfolding project_clash
insert_project-IsValid a id t = Keeps-write_unless _ _ _ λ s h free.
    with_new_project-IsValid (new_project a id t) s h
      (absent-none (find id s.db.projects) (||-false _ _ free).0) refl

insert_task_row-IsValid :
    (a : TaskArgs) (id : String) (t : ℕ)
    → Keeps IsValid (
        write_unless
          (λ s. task_clash (new_task a id t) s.db)
          integrity_error
          (with_new_task (new_task a id t)))
unfolding task_clash
insert_task_row-IsValid a id t = Keeps-write_unless _ _ _ λ s h free.
    let (fresh, rest) = ||-false _ _ free in
    with_new_task-IsValid (new_task a id t) s h (absent-none (find id s.db.tasks) fresh)
      (present-some (find a.project_id s.db.projects) (||-false _ _ rest).0) (ground arith)

insert_job_row-IsValid :
    (a : JobArgs) (task : Task) (id : String) (t : ℕ)
    → Keeps IsValid (
        write_unless
          (λ s. job_clash (new_job a task id t) s.db)
          integrity_error
          (with_new_job (new_job a task id t)))
unfolding job_clash
insert_job_row-IsValid a task id t = Keeps-write_unless _ _ _ λ s h free.
    let (fresh, rest) = ||-false _ _ free in
    with_new_job-IsValid (new_job a task id t) s h (absent-none (find id s.db.compute_jobs) fresh)
      (present-some (find task.project_id s.db.projects) (||-false _ _ rest).0) (ground arith)

insert_edge-IsValid :
    (d : TaskDependency)
    → Keeps IsValid (
        write_unless
          (λ s. any (same_dependency d) s.db.task_dependencies)
          integrity_error
          (with_new_dependency d))
insert_edge-IsValid d = Keeps-write_unless _ _ _ (λ s h free. with_new_dependency-IsValid d s h)

ruleset creation_rules = (
  keeps_rules, flush-IsValid, select-IsValid, the_task-IsValid, new_id-IsValid, or_new_id-IsValid,
  utc_now-IsValid, append-IsValid, insert_project-IsValid, insert_task_row-IsValid,
  insert_job_row-IsValid, insert_edge-IsValid,
)

-- `create_project` keeps the session valid.
pub create_project-IsValid : (a : ProjectArgs) → Keeps IsValid (create_project a)
unfolding create_project
create_project-IsValid a = search creation_rules depth 12

add_dependency-IsValid :
    (project_id task_id dependency_id : String)
    → Keeps IsValid (add_dependency project_id task_id dependency_id)
unfolding add_dependency
add_dependency-IsValid p t d = search creation_rules depth 10

add_dependencies-IsValid :
    (project_id task_id : String) (ds : List String)
    → Keeps IsValid (add_dependencies project_id task_id ds)
unfolding add_dependencies
add_dependencies-IsValid p t [] = Keeps-pure tt
add_dependencies-IsValid p t (d ∷ ds) =
    Keeps-bind (add_dependency p t d) _ (add_dependency-IsValid p t d)
      (λ _. add_dependencies-IsValid p t ds)

insert_task-IsValid : (a : TaskArgs) → Keeps IsValid (insert_task a)
unfolding insert_task
insert_task-IsValid a = search (creation_rules, add_dependencies-IsValid) depth 12

insert_job-IsValid : (a : JobArgs) (task : Task) → Keeps IsValid (insert_job a task)
unfolding insert_job
insert_job-IsValid a task = search creation_rules depth 12

or_insert-IsValid :
    {A : Type 0} (o : Option A) (id : A → String) (m : Exec Session String)
    → Keeps IsValid m
    → Keeps IsValid (or_insert o id m)
or_insert-IsValid none id m k = k
or_insert-IsValid (some a) id m k = Keeps-pure (id a)

-- `create_task` keeps the session valid.
pub create_task-IsValid : (a : TaskArgs) → Keeps IsValid (create_task a)
unfolding create_task
create_task-IsValid a =
    Keeps-bind _ _ (select-IsValid _)
      (λ existing. or_insert-IsValid existing (λ t. t.id) (insert_task a) (insert_task-IsValid a))

-- `create_compute_job` keeps the session valid.
pub create_compute_job-IsValid : (a : JobArgs) → Keeps IsValid (create_compute_job a)
unfolding create_compute_job
create_compute_job-IsValid a = Keeps-bind _ _ (select-IsValid _) (λ existing.
    Keeps-bind _ _ (the_task-IsValid a.task_id) (λ task.
      or_insert-IsValid existing (λ j. j.id) (insert_job a task) (insert_job-IsValid a task)))
