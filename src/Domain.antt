-- ===== src/Domain.antt =====
-- src/relay/domain: the entities of the service and its pure rules.
pub mod Endpoints
pub mod Deliveries
pub mod Records
pub mod Hashing
pub mod Quota
