-- ===== src/Db/Session.antt =====
-- A SQLAlchemy session (db/session.py) over the tables. `db` is what the session's objects hold,
-- `flushed` what the last flush wrote, `new_events` the Event objects that are still pending.
mod Ops
pub mod Guard
pub mod Audit
unfoldable pub use Ops.*
