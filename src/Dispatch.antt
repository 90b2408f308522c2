-- ===== src/Dispatch.antt =====
-- The durable worker (pkg/dispatcher/durable.go): what became of a send, the budget of sends, and
-- the rounds of a worker over the spool.
pub mod Outcome
pub mod Budget
pub mod Worker
pub mod Once
pub mod Drain
pub mod Recorded
mod Examples
