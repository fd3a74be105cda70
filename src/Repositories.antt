-- ===== src/Repositories.antt =====
-- src/relay/repositories: the statements that the services make on the open session, and the pages of
-- the listings.
pub mod Pagination
pub mod Deliveries
pub mod Listings
pub mod Quiet
pub mod Endpoints
pub mod Events
pub mod Outbox
pub mod Attempts
pub mod Tenants
pub mod ApiKeys
