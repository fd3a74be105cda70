-- ===== src/Api.antt =====
-- src/relay/api: authentication, the mapping of exceptions to responses, the middlewares and the
-- handlers of /v1.
pub mod Auth
pub mod Errors
pub mod Events
pub mod Middleware
pub mod Schemas
pub mod Endpoints
pub mod Deliveries
pub mod Sandbox
