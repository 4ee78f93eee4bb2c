-- ===== src/EventLog.antt =====
-- services/event_log.py: `EventLog.append`.
pub mod Sequence
pub mod Fresh
use semi_automated_research.Base.{
  ℕ, ◌+◌, String, Option, none, some, List, [], ◌∷◌, Bool, false, ◌||◌, ◌&&◌, ◌==◌, string_eq,
  nat_eq, any,
}
use semi_automated_research.Base.Json.{Fields, or_empty}
use semi_automated_research.Base.Exec.{
  Exec, pure, gets, or_raise, raise_if, modify, lookup_error, integrity_error, ◌>>=◌, ◌>>◌,
}
use semi_automated_research.Db.Table.{find}
use semi_automated_research.Db.Models.{Project, Event, project_row}
use semi_automated_research.Db.Session.{
  Session, new_id, or_new_id, utc_now, with_project, with_event,
}

-- The keyword arguments of `append`.
pub record Entry : Type 0 where
  pub project_id : String
  pub event_type : String
  pub entity_type : String
  pub entity_id : String
  pub actor_type : String
  pub actor_id : Option String
  pub correlation_id : Option String
  pub causation_event_id : Option String
  pub dedupe_key : Option String
  pub old_state : Option String
  pub new_state : Option String
  pub severity : String
  pub payload : Option Fields

-- A call that leaves the optional arguments at their defaults.
abbrev pub entry : String → String → String → String → Entry
entry project_id event_type entity_type entity_id = record {
  project_id = project_id;
  event_type = event_type;
  entity_type = entity_type;
  entity_id = entity_id;
  actor_type = "CONTROLLER";
  actor_id = none;
  correlation_id = none;
  causation_event_id = none;
  dedupe_key = none;
  old_state = none;
  new_state = none;
  severity = "INFO";
  payload = none;
}

abbrev pub same_key : Option String → Option String → Bool
same_key (some a) (some b) = a == b
same_key _ _ = false

-- The primary key, `UniqueConstraint("project_id", "seq")` and
-- `UniqueConstraint("project_id", "dedupe_key")`: a null key equals no other.
abbrev pub clashes : Event → Event → Bool
clashes new old =
    old.id == new.id
    || (old.project_id == new.project_id
        && (old.seq == new.seq || same_key old.dedupe_key new.dedupe_key))

-- The row of `project` and the Event that an entry leaves behind.
abbrev pub next_seq : Project → Project
next_seq p = record p { event_seq = p.event_seq + 1; lock_version = p.lock_version + 1 }

abbrev pub event_of : Entry → Project → String → String → ℕ → Event
event_of a p correlation_id id created_at = record {
  id = id;
  project_id = a.project_id;
  seq = p.event_seq;
  event_type = a.event_type;
  entity_type = a.entity_type;
  entity_id = a.entity_id;
  actor_type = a.actor_type;
  actor_id = a.actor_id;
  correlation_id = correlation_id;
  causation_event_id = a.causation_event_id;
  dedupe_key = a.dedupe_key;
  old_state = a.old_state;
  new_state = a.new_state;
  severity = a.severity;
  payload_json = or_empty a.payload;
  created_at = created_at;
}

-- `session.add(event)`, with the constraints that its insertion meets.
unfoldable pub add_event : Event → Exec Session Unit
add_event e = do
  clash ← gets (λ s. any (clashes e) s.db.events)
  raise_if clash integrity_error
  modify (with_event e)

-- `EventLog.append`. The Project is read with autoflush off; the new Event's `id` and `created_at` are
-- the defaults of their columns.
unfoldable pub append : Entry → Exec Session Event
unfolding new_id or_new_id utc_now add_event
append a = do
  found ← gets (λ s. find a.project_id s.db.projects)
  project ← or_raise found lookup_error
  modify (with_project (next_seq project))
  correlation_id ← or_new_id a.correlation_id "corr"
  id ← new_id "evt"
  created_at ← utc_now
  let event = event_of a (next_seq project) correlation_id id created_at
  add_event event
  pure event
