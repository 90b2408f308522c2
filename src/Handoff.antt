-- ===== src/Handoff.antt =====
-- The handoff between two senders (controllers/sender_handoff.go).
pub mod Types
pub mod Candidate
pub mod Service
pub mod Backend
mod Examples
