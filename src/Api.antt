-- ===== src/Api.antt =====
-- pkg/api/v1: the HTTP handlers.
pub mod Cc
pub mod Advance
pub mod Reply
pub mod User
pub mod Event
pub mod EventLog
pub mod Call
pub mod Tx
pub mod Request
pub mod Routes
