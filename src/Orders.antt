-- ===== src/Orders.antt =====
-- The orders module of the API.
pub mod Errors
pub mod Status
pub mod Tables
pub mod Service
pub mod Trail
pub mod History
pub mod Ownership
pub mod Conversion
pub mod Closed
mod Tests
