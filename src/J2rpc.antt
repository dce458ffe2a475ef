-- ===== src/J2rpc.antt =====
-- The JSON-RPC server, j2rpc/*.go.
pub mod Names
pub mod Error
pub mod Http
pub mod Message
pub mod Reflect
pub mod Callback
pub mod Middleware
pub mod Args
pub mod Server
pub mod Tests
