-- ===== src/Inventory.antt =====
-- The inventory module of the API.
pub mod Errors
pub mod Repository
pub mod Service
pub mod Admin
pub mod Adjust
pub mod Queries
pub mod Change
pub mod Calls
pub mod History
pub mod Oversell
mod Tests
