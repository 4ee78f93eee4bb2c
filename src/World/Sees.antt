-- ===== src/World/Sees.antt =====
-- A transaction whose body leaves what is read from the tables leaves it, however it ends.
use semi_automated_research.Base.{◌≡◌, Bool-cases, inl, inr}
use semi_automated_research.Base.Exec.{Exec, Result, ok, err}
use semi_automated_research.Base.Exec.Keeps.{After, Keeps}
use semi_automated_research.Db.Session.{Db, Session}
use semi_automated_research.Db.Session.Guard.{flush, finish, passes_listeners}
use semi_automated_research.Invariant.Sees.{Sees}
use semi_automated_research.World.{World, on_session, begin}
use semi_automated_research.World.Always.{Always}

module _ {A B : Type 0} (read : Db → B) (v : B) where
  finished :
      (s : Session) (x : Result A × Session)
      → read s.db ≡ v
      → After (Sees read v) x
      → read (finish s x).1.db ≡ v
  unfolding flush
  finished s (ok a, s') before after = elim (Bool-cases (passes_listeners s')) [
    | inl pass ↦ rw pass after
    | inr stop ↦ rw stop before
  ]
  finished s (err e, s') before after = before

  pub begin-Sees :
      {W : Type 0} (m : Exec Session A)
      → Keeps (Sees read v) m
      → Always {S = World W} (λ w. read w.session.db ≡ v) (begin (on_session m))
  unfolding begin on_session
  begin-Sees m k = record { at = λ w h. finished w.session (m w.session) h (k.at w.session h) }
