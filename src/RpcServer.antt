-- ===== src/RpcServer.antt =====
-- The RPC server.
pub mod Api
pub mod Conn
pub mod Methods
pub mod Dispatch
pub mod Implementation
pub mod Tokens
pub mod Reachable
