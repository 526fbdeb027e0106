-- ===== src/Payments.antt =====
-- modules/payments: payments of orders, with the webhooks of their providers.
pub mod Errors
pub mod Tables
pub mod Service
pub mod Retry
pub mod Callbacks
pub mod Duplicates
pub mod Orders
pub mod Confirmed
mod Tests
