-- ===== src/EventLog/Sequence.antt =====
-- The numbering of the Events of each Project: `EventLog.append` hands out 1, 2, 3, … with no gap.
use text.Mathlib.TextEquality.{eq_iff}
use semi_automated_research.Base.{
  ℕ, zero, suc, ◌+◌, String, ◌≡◌, refl, inl, inr, Bool, true, false, Option, none, some, List, [],
  ◌∷◌, ◌++◌, arith, ◌==◌, string_eq, nat_eq, any, f_string, if◌then◌else◌, Eq, contains, ◌||◌, ◌&&◌,
  ◌<◌, ◌⊎◌, Bool-cases, Option-cases,
}
use semi_automated_research.Base.Exec.{ok, err, ◌>>=◌, integrity_error, lookup_error}
use semi_automated_research.Base.Exec.Keeps.{Keeps, After-of}
use semi_automated_research.Db.Table.{find, find-store, id-find, find_self}
use semi_automated_research.Db.Models.{Project, Event, project_row}
use semi_automated_research.Db.Session.{Db, Session, with_project, with_event, given_or_drawn}
use semi_automated_research.EventLog.{Entry, append, event_of, next_seq, clashes, same_key}

-- The numbers of a Project's Events, in the order of the log.
abbrev pub seqs : String → List Event → List ℕ
seqs p [] = []
seqs p (e ∷ es) = let rest = seqs p es in if e.project_id == p then e.seq ∷ rest else rest

-- 1, 2, …, n.
abbrev pub up_to : ℕ → List ℕ
up_to zero = []
up_to (suc n) = up_to n ++ suc n ∷ []

unfoldable pub counter : Option Project → ℕ
counter none = 0
counter (some project) = project.event_seq

abbrev pub event_seq_of : String → Db → ℕ
event_seq_of p db = counter (find p db.projects)

-- For every Project the log holds exactly the numbers 1 to `event_seq`, in order.
pub record IsSequenced (s : Session) : Type 0 where
  pub numbered : (p : String) → seqs p s.db.events ≡ up_to (event_seq_of p s.db)

seqs-append :
    (p : String) (es : List Event) (e : Event)
    → seqs p (es ++ e ∷ []) ≡ (if e.project_id == p then seqs p es ++ e.seq ∷ [] else seqs p es)
seqs-append p [] e = ground arith
seqs-append p (x ∷ es) e = ground (arith, seqs-append p es e)

up_to_suc : (n : ℕ) → up_to (n + 1) ≡ up_to n ++ (n + 1) ∷ []
up_to_suc n = let e : n + 1 ≡ suc n = omega arith in rw e refl

-- The Event that `append` makes in a session, and the session that it leaves.
unfoldable pub event_in : Entry → Project → Session → Event
event_in a p s =
    let (c, n) = given_or_drawn a.correlation_id "corr" (with_project (next_seq p) s) in
    event_of a (next_seq p) c (f_string ("evt" ∷ "_" ∷ s.env.uuid4_hex n ∷ []))
      (s.env.utc_clock (n + 1))

unfoldable pub logged : Entry → Project → Session → Session
unfolding event_in
logged a p s =
    let (c, n) = given_or_drawn a.correlation_id "corr" (with_project (next_seq p) s) in
    record (with_event (event_in a p s) (with_project (next_seq p) s)) { calls = n + 1 + 1 }

-- The session after a call of `append` whose insertion is refused.
unfoldable pub unlogged : Entry → Project → Session → Session
unlogged a p s =
    let (c, n) = given_or_drawn a.correlation_id "corr" (with_project (next_seq p) s) in
    record (with_project (next_seq p) s) { calls = n + 1 + 1 }

pub append-eq :
    (a : Entry) (s : Session) (p : Project)
    → find a.project_id s.db.projects ≡ some p
    → any (clashes (event_in a p s)) s.db.events ≡ false
    → append a s ≡ (ok (event_in a p s), logged a p s)
unfolding ◌>>=◌ append event_in logged
append-eq a s p found free = rw found (rw free refl)

append-missing :
    (a : Entry) (s : Session)
    → find a.project_id s.db.projects ≡ none
    → append a s ≡ (err lookup_error, s)
unfolding ◌>>=◌ append
append-missing a s missing = rw missing refl

append-clash :
    (a : Entry) (s : Session) (p : Project)
    → find a.project_id s.db.projects ≡ some p
    → any (clashes (event_in a p s)) s.db.events ≡ true
    → append a s ≡ (err integrity_error, unlogged a p s)
unfolding ◌>>=◌ append event_in unlogged
append-clash a s p found clash = rw found (rw clash refl)

-- A call of `append` that returns found its Project, and did this.
pub append_inv :
    (a : Entry) (s : Session) (e : Event)
    → (append a s).0 ≡ ok e
    → (p : Project) × (find a.project_id s.db.projects ≡ some p)
      × (append a s ≡ (ok (event_in a p s), logged a p s))
append_inv a s e h = elim (Option-cases (find a.project_id s.db.projects)) [
  | inl missing ↦ cc (append-missing a s missing)
  | inr (p, found) ↦ elim (Bool-cases (any (clashes (event_in a p s)) s.db.events)) [
    | inl clash ↦ cc (append-clash a s p found clash)
    | inr free ↦ (p, found, append-eq a s p found free)
  ]
]

-- Appending keeps every Project's numbering.
pub logged-IsSequenced :
    (a : Entry) (p : Project) (s : Session)
    → find a.project_id s.db.projects ≡ some p
    → IsSequenced s
    → IsSequenced (logged a p s)
unfolding logged event_in counter
logged-IsSequenced a p s found h = record {
  numbered = λ q.
      let same = id-find a.project_id s.db.projects p found in
      rw
        (
          seqs-append,
          find-store q (next_seq p) p s.db.projects (find_self a.project_id s.db.projects p found),
        )
        (ground (arith, same, eq_iff p.id q, found, h.numbered q, up_to_suc p.event_seq));
}

pub append-IsSequenced : (a : Entry) → Keeps IsSequenced (append a)
append-IsSequenced a = record {
  at = λ s h. After-of IsSequenced (append a s) λ e returned.
      let (p, found, done) = append_inv a s e returned in
      rw done (logged-IsSequenced a p s found h);
}

-- Some Event bears the id already.
abbrev pub id_used : String → List Event → Bool
id_used id = any (λ old. old.id == id)

-- Some Event of the Project bears the key already.
abbrev pub key_used : String → Option String → List Event → Bool
key_used p key = any (λ old. old.project_id == p && same_key old.dedupe_key key)

clashes-parts :
    (e : Event) (es : List Event)
    → contains e.seq (seqs e.project_id es) ≡ false
    → key_used e.project_id e.dedupe_key es ≡ false
    → id_used e.id es ≡ false
    → any (clashes e) es ≡ false
clashes-parts e [] free fresh new = refl
clashes-parts e (x ∷ es) free fresh new = ground (arith, clashes-parts e es)

contains-append {ℓ} :
    {A : Type ℓ} ⦃eq : Eq A⦄ (a : A) (xs ys : List A)
    → contains a (xs ++ ys) ≡ (contains a xs || contains a ys)
contains-append a [] ys = refl
contains-append ⦃eq⦄ a (x ∷ xs) ys = ground (arith, contains-append ⦃eq = eq⦄ a xs ys)

above-up_to : (k n : ℕ) → n < k → contains k (up_to n) ≡ false
above-up_to k zero h = refl
above-up_to k (suc n) h =
    rw (contains-append k (up_to n) (suc n ∷ []), above-up_to k n (omega arith)) (ground arith)

pub no_key : (p : String) (es : List Event) → key_used p none es ≡ false
no_key p [] = refl
no_key p (x ∷ es) = ground (arith, no_key p es)

-- In a sequenced log an Event for a Project that exists, under no key or one that the Project has not
-- used, and under an id that no Event bears, is written.
pub append_ok :
    (a : Entry) (s : Session) (p : Project)
    → IsSequenced s
    → find a.project_id s.db.projects ≡ some p
    → key_used a.project_id a.dedupe_key s.db.events ≡ false
    → id_used (event_in a p s).id s.db.events ≡ false
    → append a s ≡ (ok (event_in a p s), logged a p s)
unfolding event_in counter
append_ok a s p h found fresh new = append-eq a s p found (
    clashes-parts (event_in a p s) s.db.events
      (rw (h.numbered a.project_id, found)
        (above-up_to (p.event_seq + 1) p.event_seq (omega arith)))
      fresh new)

-- What a call of `append` does whose Project exists.
pub append-cases :
    (a : Entry) (s : Session) (p : Project)
    → find a.project_id s.db.projects ≡ some p
    → (append a s ≡ (ok (event_in a p s), logged a p s))
      ⊎ (append a s ≡ (err integrity_error, unlogged a p s))
append-cases a s p found = elim (Bool-cases (any (clashes (event_in a p s)) s.db.events)) [
  | inl clash ↦ inr (append-clash a s p found clash)
  | inr free ↦ inl (append-eq a s p found free)
]
