-- ===== src/Spool.antt =====
-- pkg/notification_spool: the durable queue of original notifications.
pub mod Types
pub mod Outcome
pub mod Counter
pub mod Profiles
pub mod Submit
pub mod Claim
pub mod Finish
pub mod Cleanup
pub mod Health
pub mod Open
pub mod QueueKey
pub mod Invariant
pub mod Calls
pub mod Lifecycle
pub mod Claiming
pub mod Progress
pub mod Fencing
pub mod Plan
pub mod Idempotence
pub mod Retention
pub mod Dependents
pub mod Outage
pub mod ProfileLaws
pub mod Examples
