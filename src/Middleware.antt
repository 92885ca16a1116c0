-- ===== src/Middleware.antt =====
-- The middleware daemon.
pub mod State
pub mod Scripts
pub mod Flashdrive
pub mod Hostname
pub mod Runes
pub mod Settings
pub mod Auth
pub mod Update
pub mod Info
pub mod Start
pub mod Ipc
pub mod Loops
pub mod Download
pub mod Commands
pub mod Pairing
