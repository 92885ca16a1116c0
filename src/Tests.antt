-- ===== src/Tests.antt =====
-- Runs of the model at concrete inputs.
mod Codec
mod Demo
mod Laws
mod Rpc
mod Scripts
mod Accounts
mod Update
mod Redis
mod Ipc
mod Clients
mod Pumps
mod Hsm
mod Metrics
mod Tokens
mod MockRedis
mod Confirm
mod Supervision
mod Fan
mod ConfGen
mod Pairing
