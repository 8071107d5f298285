-- ===== src/Tests.antt =====
-- The theorems at concrete managers, executors, filters, tables and requests.
mod Origin
mod Executor
mod Filter
mod Clock
mod Sender
mod Checkpoint
mod Recovery
mod Participant
mod Coordinator
mod Advance
mod Instrumenter
mod Executors
mod Stores
mod Events
mod EventLogs
mod Routers
mod Routes
mod Contexts
mod GoPaths
mod Transactions
mod Services
mod Requests
