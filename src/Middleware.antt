-- ===== src/Middleware.antt =====
-- pkg/middleware: the HTTP middlewares of a transaction's coordinator and participants.
pub mod Sender
pub mod Participant
pub mod Coordinator
