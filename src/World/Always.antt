-- ===== src/World/Always.antt =====
-- Invariants of the whole world. `Keeps` speaks of a call that returns; `Always` also of one that
-- raises, as a transaction may be rolled back and the controller go on.
use semi_automated_research.Base.{
  String, ◌+◌, Option, none, some, List, [], ◌∷◌, Bool, true, false, if◌then◌else◌,
}
use semi_automated_research.Base.Exec.{
  Exec, Result, ok, err, pure, or_raise, Error, collect, ◌>>=◌, continue,
}
use semi_automated_research.Base.Exec.Keeps.{After, Keeps}
use semi_automated_research.Db.Session.{Db, Session, new_id, utc_now}
use semi_automated_research.Db.Session.Guard.{finish}
use semi_automated_research.Invariant.{IsValid}
use semi_automated_research.Invariant.Flush.{flush_ok, written-IsValid, rollback-IsValid}
use semi_automated_research.World.{World, Files, on_session, on_files, on_outside, look, begin}

-- `P` holds of the state after `m`, also where `m` raises.
pub record Always {κ} {S A : Type 0} (P : S → Type κ) (m : Exec S A) : Type κ where
  pub at : (s : S) → P s → P (m s).1

module _ {κ} {S A B : Type 0} {P : S → Type κ} where
  Always-continue :
      (r : Result A) (s : S) (f : A → Exec S B)
      → ((a : A) → Always P (f a))
      → P s
      → P (continue r f s).1
  Always-continue (ok a) s f onward h = (onward a).at s h
  Always-continue (err e) s f onward h = h

  pub Always-bind :
      (m : Exec S A) (f : A → Exec S B)
      → Always P m
      → ((a : A) → Always P (f a))
      → Always P (m >>= f)
  unfolding ◌>>=◌
  Always-bind m f held onward = record {
    at = λ s h. Always-continue (m s).0 (m s).1 f onward (held.at s h);
  }

module _ {κ} {S A : Type 0} {P : S → Type κ} where
  pub Always-pure : (a : A) → Always P (pure a)
  unfolding pure
  Always-pure a = record { at = λ s h. h }

  pub Always-or_raise : (o : Option A) (e : Error) → Always P (or_raise o e)
  unfolding or_raise
  Always-or_raise none e = record { at = λ s h. h }
  Always-or_raise (some a) e = record { at = λ s h. h }

  pub Always-if :
      (test : Bool) (m n : Exec S A) → Always P m → Always P n → Always P (if test then m else n)
  Always-if true m n held other = held
  Always-if false m n held other = other

module _ {κ} {S A B : Type 0} {P : S → Type κ} where
  pub Always-collect :
      (body : A → Exec S (Option B)) (xs : List A)
      → ((x : A) → Always P (body x))
      → Always P (collect body xs)
  unfolding collect
  Always-collect body [] held = Always-pure []
  Always-collect body (x ∷ xs) held = Always-bind (body x) _ (held x) (λ found.
      Always-bind (collect body xs) _ (Always-collect body xs held) (λ others. Always-pure _))

-- The session is valid.
abbrev pub HasValid : {W : Type 0} → World W → Type 0
HasValid w = IsValid w.session

module _ {W A : Type 0} where
  lifted :
      (x : Result A × Session) (w : World W)
      → After IsValid x
      → After (HasValid {W = W}) (x.0, record w { session = x.1 })
  lifted (ok a, s) w h = h
  lifted (err e, s) w h = tt

  pub on_session-HasValid :
      (m : Exec Session A) → Keeps IsValid m → Keeps (HasValid {W = W}) (on_session m)
  unfolding on_session
  on_session-HasValid m k = record { at = λ w h. lifted (m w.session) w (k.at w.session h) }

  same_session : (r : Result A) (w : World W) → HasValid w → After (HasValid {W = W}) (r, w)
  same_session (ok a) w h = h
  same_session (err e) w h = tt

  pub on_files-HasValid : (m : Exec Files A) → Keeps (HasValid {W = W}) (on_files m)
  unfolding on_files
  on_files-HasValid m = record {
    at = λ w h. same_session (m w.files).0 (record w { files = (m w.files).1 }) h;
  }

  -- A transaction leaves a valid session, whether its body returns or raises.
  pub begin-HasValid :
      (m : Exec (World W) A) → Keeps (HasValid {W = W}) m → Always (HasValid {W = W}) (begin m)
  unfolding begin
  begin-HasValid m k = record { at = λ w h. finished w (m w) h (k.at w h) }
    where
      finished :
          (w : World W) (x : Result A × World W)
          → IsValid w.session
          → After (HasValid {W = W}) x
          → IsValid (finish w.session (x.0, x.1.session)).1
      finished w (ok a, w') before after =
          rw (flush_ok w'.session after) (written-IsValid w'.session after)
      finished w (err e, w') before after = rollback-IsValid w.session w'.session before

  pub on_outside-HasValid : (m : Exec W A) → Always (HasValid {W = W}) (on_outside m)
  unfolding on_outside
  on_outside-HasValid m = record { at = λ w h. h }

  pub look-HasValid : (f : Db → A) → Always (HasValid {W = W}) (look {W = W} f)
  unfolding look
  look-HasValid f = record { at = λ w h. h }

module _ {W : Type 0} where
  -- Ids and instants that are drawn outside a transaction.
  pub new_id-HasValid : (prefix : String) → Always (HasValid {W = W}) (on_session (new_id prefix))
  unfolding on_session new_id
  new_id-HasValid prefix = record {
    at = λ w h. rollback-IsValid w.session (record w.session { calls = w.session.calls + 1 }) h;
  }

  pub utc_now-HasValid : Always (HasValid {W = W}) (on_session utc_now)
  unfolding on_session utc_now
  utc_now-HasValid = record {
    at = λ w h. rollback-IsValid w.session (record w.session { calls = w.session.calls + 1 }) h;
  }

pub ruleset always_rules = (
  Always-bind, Always-pure, Always-or_raise, Always-if, Always-collect, begin-HasValid,
  on_outside-HasValid, look-HasValid, new_id-HasValid, utc_now-HasValid, on_session-HasValid,
)
