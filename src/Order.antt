-- ===== src/Order.antt =====
-- The order service, internal/order.
pub mod Enums
pub mod Domain
pub mod Queries
pub mod OutboxMessage
pub mod Rows
pub mod Repository
pub mod Service
pub mod Consumers
mod Outbox
mod Statements
mod Writing
pub mod Lifecycle
mod Reading
mod Transitions
mod Courses
mod Pricing
mod Matching
mod Retrying
mod Promises
pub mod Samples
mod Tests
pub mod Handling
pub mod Publishing
pub mod Listing
pub mod Handler
pub mod Dispatcher
mod Outgoing
mod Delivered
mod Dispatching
