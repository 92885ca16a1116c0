-- ===== src/Supervisor.antt =====
-- The supervisor of tools/bbbsupervisor: log lines and Prometheus values become events, and events
-- restart units or change the configuration.
pub mod Logs
pub mod Handling
pub mod Flooding
pub mod Ibd
pub mod Polling
pub mod Restarts
pub mod Unanswered
