-- ===== src/Payment.antt =====
-- The payment service, internal/payment.
pub mod Enums
pub mod Domain
pub mod Queries
pub mod Rows
pub mod Repository
pub mod Service
pub mod Publisher
pub mod Consumer
pub mod Handler
pub mod Accounts
pub mod Requests
mod Reading
mod Statements
mod Changes
mod Handling
mod Refinement
mod Lifecycle
mod RoundTrips
mod Capturing
mod ListedRows
mod Pages
mod Announcing
mod Retrying
mod Samples
mod Tests
