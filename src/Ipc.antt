-- ===== src/Ipc.antt =====
-- The IPC transport, src/transports/ipc.rs.
pub mod Codec
pub mod Listen
pub mod Connection
