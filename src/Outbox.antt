-- ===== src/Outbox.antt =====
-- The outbox of delivery receipts (pkg/jevshadow/receipt_outbox.go).
pub mod Envelope
pub mod Disk
pub mod Enqueue
pub mod Deliver
pub mod Scan
pub mod Backoff
pub mod Places
pub mod Losses
pub mod Runs
pub mod Ends
pub mod Twice
pub mod Choice
pub mod Post
pub mod Foreign
mod Examples
