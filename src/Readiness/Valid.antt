-- ===== src/Readiness/Valid.antt =====
-- The operations of services/task_readiness.py keep `IsValid`.
use semi_automated_research.Base.{ℕ, String, refl, inl, inr, Option, none, string_eq, Option-cases}
use semi_automated_research.Base.Exec.Keeps.{Keeps, keeps_rules}
use semi_automated_research.Domain.TaskStatus.{task_status_eq}
use semi_automated_research.Db.Table.{find, find_self}
use semi_automated_research.Db.Models.{Task, task_row}
use semi_automated_research.Invariant.{IsValid}
use semi_automated_research.Invariant.Writes.{task_kept-IsValid}
use semi_automated_research.Invariant.Transitions.{transition_task-IsValid}
use semi_automated_research.Invariant.Flush.{select-IsValid, clock-IsValid, the_task-IsValid}
use semi_automated_research.Readiness.{
  ready_if_satisfied, reconcile, retry, fail_and_retry, clear_lease, recover,
  recover_expired_leases,
}

-- The Task without its lease.
abbrev freed : Task → Task
freed t = record t { lease_owner = none; lease_expires_at = none }

ruleset readiness_rules = (keeps_rules, select-IsValid, clock-IsValid, transition_task-IsValid)

pub ready_if_satisfied-IsValid : (id : String) → Keeps IsValid (ready_if_satisfied id)
unfolding ready_if_satisfied
ready_if_satisfied-IsValid id = search readiness_rules

-- `reconcile` keeps the session valid.
pub reconcile-IsValid : (now : Option ℕ) → Keeps IsValid (reconcile now)
unfolding reconcile
reconcile-IsValid now = search (readiness_rules, ready_if_satisfied-IsValid)

clear_lease-IsValid : (id : String) → Keeps IsValid (clear_lease id)
unfolding clear_lease
clear_lease-IsValid id = record {
  at = λ s h. elim (Option-cases (find id s.db.tasks)) [
    | inl missing ↦ rw missing tt
    | inr (t, found) ↦
        let sound = h.task_sound id t found in
        rw found (
          task_kept-IsValid s (freed t) t s.calls h (find_self id s.db.tasks t found) refl
            (record {
              started = sound.started;
              attempted = sound.attempted;
              finished = sound.finished;
              unowned = λ _. refl;
              unleased = λ _. refl;
            })
            refl)
  ];
}

fail_and_retry-IsValid : (id : String) → Keeps IsValid (fail_and_retry id)
unfolding fail_and_retry retry
fail_and_retry-IsValid id = search (readiness_rules, the_task-IsValid)

recover-IsValid : (id : String) → Keeps IsValid (recover id)
unfolding recover
recover-IsValid id = search (readiness_rules, clear_lease-IsValid, fail_and_retry-IsValid)

-- `recover_expired_leases` keeps the session valid.
pub recover_expired_leases-IsValid : (now : Option ℕ) → Keeps IsValid (recover_expired_leases now)
unfolding recover_expired_leases
recover_expired_leases-IsValid now = search (readiness_rules, recover-IsValid)
