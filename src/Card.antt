-- ===== src/Card.antt =====
-- The cards of the shadow relay: annotations are written onto a card that was sent
-- (pkg/jevshadow/service.go, card_state.go and card_writer.go).
pub mod Component
pub mod Validation
pub mod State
pub mod Store
pub mod Writer
pub mod Apply
pub mod Requests
pub mod Levels
pub mod Advances
pub mod Steps
pub mod Once
pub mod Recent
pub mod Runs
pub mod Again
pub mod Successes
pub mod Repeat
pub mod Twice
pub mod Policy
mod Examples
mod FirstPatch
pub mod Valid
pub mod Confirms
pub mod Applies
