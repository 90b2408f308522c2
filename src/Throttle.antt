-- ===== src/Throttle.antt =====
-- The flow control of DingTalk (pkg/notify/notifier/dingtalk/throttle.go).
pub mod Limiter
pub mod Window
mod Examples
