-- ===== src/Server.antt =====
-- The running server (crates/aprsr-server): its counters, its clients, the ingest path and the
-- framing of a connection's bytes.
pub mod Metrics
pub mod Registry
pub mod Dispatch
pub mod Listener
pub mod Client
pub mod Sessions
pub mod Codec
