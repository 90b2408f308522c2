-- ===== src/Silencing.antt =====
-- Silences: when one is active, and which alerts pass the stage that applies them
-- (apis/v2beta2, pkg/controller/controller.go, pkg/silence, pkg/filter).
pub mod Selector
pub mod Active
pub mod Stages
pub mod Schedule
pub mod Muting
pub mod Kept
pub mod Exact
pub mod Agree
mod Examples
