-- ===== src/World.antt =====
-- What the controller works on: the session on the database, the files of the workspace, and the
-- outside that the compute providers act on. A transaction rolls back the database, and neither the
-- files nor the outside.
pub mod Always
pub mod Sees
use semi_automated_research.Base.{ℕ, String, List}
use semi_automated_research.Base.Exec.{Exec, ok}
use semi_automated_research.Db.Session.{Db, Session}
use semi_automated_research.Db.Session.Guard.{finish}

-- The content of a file.
abbrev pub Bytes : Type 0
Bytes = List ℕ

-- The files, and the number of copies that were made.
pub record Files : Type 0 where
  pub tree : List (String × Bytes)
  pub copies : ℕ

pub record World (W : Type 0) : Type 0 where
  pub session : Session
  pub files : Files
  pub outside : W

module _ {W A : Type 0} where
  unfoldable pub on_session : Exec Session A → Exec (World W) A
  on_session m w = let (r, s) = m w.session in (r, record w { session = s })

  unfoldable pub on_files : Exec Files A → Exec (World W) A
  on_files m w = let (r, f) = m w.files in (r, record w { files = f })

  unfoldable pub on_outside : Exec W A → Exec (World W) A
  on_outside m w = let (r, o) = m w.outside in (r, record w { outside = o })

  -- `with session_factory() as session:` around a query.
  unfoldable pub look : (Db → A) → Exec (World W) A
  look f w = (ok (f w.session.db), w)

  -- `with session_factory.begin() as session:` around a body that may act on the rest too.
  unfoldable pub begin : Exec (World W) A → Exec (World W) A
  begin m w =
      let (r, w') = m w in
      let (r', s) = finish w.session (r, w'.session) in (r', record w' { session = s })
