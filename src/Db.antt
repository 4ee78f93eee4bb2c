-- ===== src/Db.antt =====
-- db/models.py, db/session.py and db/base.py: the tables, and a session over them.
pub mod Table
pub mod Keys
pub mod Models
pub mod Session
