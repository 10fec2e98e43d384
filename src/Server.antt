-- ===== src/Server.antt =====
-- The shared server state, src/server.rs: `Server/State` has the state and the socket operations,
-- `Server/Activity` the translation of an activity, `Server/Handle` the command handler.
pub mod Time
pub mod State
pub mod Activity
pub mod Handle
