-- ===== src/Inventory.antt =====
-- The inventory service: internal/inventory.
pub mod Domain
pub mod Queries
pub mod Repository
pub mod Quantities
pub mod Moves
pub mod Reserving
pub mod Service
pub mod Outcomes
pub mod Shifts
pub mod Listing
pub mod Releasing
pub mod Consumers
pub mod Compensation
pub mod Handling
pub mod Delivery
pub mod Promises
mod Tests
pub mod Handler
