-- ===== src/Manager.antt =====
-- manager.go: the state of a manager, and what it does after each heartbeat.
pub mod Expired
pub mod Priority
pub mod Pulse
pub mod Lifecycle
pub mod State
pub mod Created
pub mod Started
pub mod Report
pub mod Beat
