-- ===== src/EventLog/Fresh.antt =====
-- Ids that are drawn anew: where `uuid4` never answers twice the same, no Event bears an id that is still
-- to be drawn.
use semi_automated_research.Base.{
  ℕ, ◌+◌, ◌≤◌, String, ◌≡◌, refl, inl, inr, Option, none, some, true, false, List, [], ◌∷◌, ◌++◌,
  arith, ◌==◌, string_eq, ◌||◌, f_string, Bool-cases,
}
use mathlib.Core.Path.{subst}
use semi_automated_research.Db.Models.{Project, Event}
use semi_automated_research.Db.Session.{Env, Session, with_project, given_or_drawn}
use semi_automated_research.EventLog.{Entry, next_seq}
use semi_automated_research.EventLog.Sequence.{event_in, logged, id_used}

-- The id of the Event that draws number `n` names.
abbrev pub event_id : Env → ℕ → String
event_id env n = f_string ("evt" ∷ "_" ∷ env.uuid4_hex n ∷ [])

-- `uuid4` does not repeat itself.
abbrev pub IsUnique : Env → Type 0
IsUnique env = (m n : ℕ) → (event_id env m == event_id env n) ≡ true → m ≡ n

-- No Event bears an id that is still to be drawn.
abbrev pub IsFresh : Session → Type 0
IsFresh s = (n : ℕ) → s.calls ≤ n → id_used (event_id s.env n) s.db.events ≡ false

id_used-append :
    (id : String) (es : List Event) (e : Event)
    → id_used id (es ++ e ∷ []) ≡ (id_used id es || e.id == id)
id_used-append id [] e = ground arith
id_used-append id (x ∷ es) e = ground (arith, id_used-append id es e)

given_or_drawn-grows :
    (given : Option String) (prefix : String) (s : Session)
    → s.calls ≤ (given_or_drawn given prefix s).1
unfolding given_or_drawn
given_or_drawn-grows none prefix s = omega arith
given_or_drawn-grows (some g) prefix s = elim (Bool-cases (g == "")) [
  | inl blank ↦ rw blank (omega arith)
  | inr text ↦ rw text (omega arith)
]

-- The number of the draw that names the Event, and that it is not below the count.
drawn_number :
    (a : Entry) (p : Project) (s : Session)
    → (k : ℕ) × ((event_in a p s).id ≡ event_id s.env k)
      × (s.calls ≤ k)
      × ((logged a p s).calls ≡ k + 2)
unfolding event_in logged
drawn_number a p s =
    let drawn = given_or_drawn a.correlation_id "corr" (with_project (next_seq p) s) in
    (
      drawn.1,
      refl,
      given_or_drawn-grows a.correlation_id "corr" (with_project (next_seq p) s),
      omega arith,
    )

pub event_in-fresh :
    (a : Entry) (p : Project) (s : Session)
    → IsFresh s
    → id_used (event_in a p s).id s.db.events ≡ false
event_in-fresh a p s fresh =
    let (k, named, above, _) = drawn_number a p s in rw named (fresh k above)

pub logged-IsFresh :
    (a : Entry) (p : Project) (s : Session) → IsUnique s.env → IsFresh s → IsFresh (logged a p s)
unfolding logged
logged-IsFresh a p s unique fresh n above =
    let (k, named, start, end) = drawn_number a p s in
    let other : (event_id s.env k == event_id s.env n) ≡ false =
      elim (Bool-cases (event_id s.env k == event_id s.env n)) [
        | inl same ↦
            let equal = unique k n same in
            let late : k + 2 ≤ n = subst (λ c. c ≤ n) end above in
            absurd (omega (arith, equal, late))
        | inr differs ↦ differs
      ] in
    let old = fresh n (omega (arith, start, end, above)) in
    rw (id_used-append, named, other, old) refl
