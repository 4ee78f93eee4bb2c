-- ===== src/Invariant/Sees.antt =====
-- Methods that leave what is read from the tables as it is.
use semi_automated_research.Base.{
  String, ◌≡◌, ◌∙◌, Option, List, [], ◌∷◌, ◌++◌, Bool-cases, inl, inr,
}
use semi_automated_research.Base.Exec.{modify}
use semi_automated_research.Base.Exec.Keeps.{Keeps, keeps_rules, Keeps-modify}
use semi_automated_research.Db.Models.{Project, Event, project_row}
use semi_automated_research.Db.Session.{
  Db, Session, new_id, or_new_id, utc_now, the_task, the_job, with_project, with_event,
}
use semi_automated_research.Db.Session.Guard.{flush, select, passes_listeners}
use semi_automated_research.Db.Table.{store}
use semi_automated_research.EventLog.{Entry, append, add_event}

-- A reading that hangs neither on the Events nor on the Projects.
pub record IsApart {A : Type 0} (read : Db → A) : Type 0 where
  pub at :
      (db : Db) (es : List Event) (ps : List Project)
      → read (record db { events = es; projects = ps }) ≡ read db

abbrev pub Sees : {A : Type 0} → (Db → A) → A → Session → Type 0
Sees read v s = read s.db ≡ v

module _ {A : Type 0} (read : Db → A) (v : A) where
  pub flush-Sees : Keeps (Sees read v) flush
  unfolding flush
  flush-Sees = record {
    at = λ s h. elim (Bool-cases (passes_listeners s)) [
      | inl pass ↦ rw pass h
      | inr stop ↦ rw stop tt
    ];
  }

  pub select-Sees : {B : Type 0} (f : Db → B) → Keeps (Sees read v) (select f)
  unfolding select
  select-Sees f = search (keeps_rules, flush-Sees)

  pub new_id-Sees : (prefix : String) → Keeps (Sees read v) (new_id prefix)
  unfolding new_id
  new_id-Sees prefix = record { at = λ s h. h }

  pub or_new_id-Sees :
      (given : Option String) (prefix : String) → Keeps (Sees read v) (or_new_id given prefix)
  unfolding or_new_id
  or_new_id-Sees given prefix = record { at = λ s h. h }

  pub utc_now-Sees : Keeps (Sees read v) utc_now
  unfolding utc_now
  utc_now-Sees = record { at = λ s h. h }

  pub the_task-Sees : (id : String) → Keeps (Sees read v) (the_task id)
  unfolding the_task
  the_task-Sees id = search keeps_rules

  pub the_job-Sees : (id : String) → Keeps (Sees read v) (the_job id)
  unfolding the_job
  the_job-Sees id = search keeps_rules

  with_project-Sees : IsApart read → (p : Project) → Keeps (Sees read v) (modify (with_project p))
  with_project-Sees apart p =
      Keeps-modify (with_project p) λ s h. apart.at s.db s.db.events (store p s.db.projects) ∙ h

  with_event-Sees : IsApart read → (e : Event) → Keeps (Sees read v) (modify (with_event e))
  with_event-Sees apart e =
      Keeps-modify (with_event e) λ s h. apart.at s.db (s.db.events ++ e ∷ []) s.db.projects ∙ h

  -- An Event is written in its table and counted in its Project.
  pub append-Sees : IsApart read → (a : Entry) → Keeps (Sees read v) (append a)
  unfolding append add_event
  append-Sees apart a =
      search
        (keeps_rules, or_new_id-Sees, new_id-Sees, utc_now-Sees, with_project-Sees, with_event-Sees)
        depth 14
