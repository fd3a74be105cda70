-- ===== src/Examples.antt =====
-- The platform as lists, and the theorems at concrete inputs.
mod Tables
mod Queues
mod Worlds
mod Attempts
mod Codes
mod Flows
mod Addresses
mod Access
mod Budgets
mod Breakers
mod Tenants
mod Listings
mod Gates
mod Sandboxes
mod Pipeline
