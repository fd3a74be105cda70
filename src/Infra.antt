-- ===== src/Infra.antt =====
-- src/relay/infra: the adapters.
pub mod Signing
pub mod AttemptEvents
pub mod Metrics
pub mod HttpSender
pub mod Streams
pub mod RetrySchedule
pub mod Addresses
pub mod SsrfGuard
pub mod Outbound
pub mod RateLimit
