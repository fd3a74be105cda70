-- ===== src/Services.antt =====
-- src/relay/services: the use cases.
pub mod Attempt
pub mod Atomicity
pub mod Ingest
pub mod Replay
pub mod Endpoints
pub mod ApiKeys
pub mod Sandbox
pub mod Offline
pub mod Dlq
pub mod Metrics
