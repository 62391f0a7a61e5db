-- ===== src/Transport.antt =====
-- internal/transport: the messages, the sessions and the transports.
pub mod Rpc
pub mod ErrorMapper
pub mod Session
pub mod Http
pub mod Stdio
pub mod Sse
pub mod Factory
