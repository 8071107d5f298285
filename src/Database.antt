-- ===== src/Database.antt =====
-- pkg/database/: the life cycle of a database transaction.
pub mod LifeCycle
pub mod Sql
pub mod User
pub mod Event
pub mod EventLog
pub mod Stores
