-- ===== src/Tests.antt =====
-- The properties at concrete inputs.
mod Core
mod Paths
mod Filters
mod Serving
mod Settings
mod Connections
