-- ===== src/Checkout.antt =====
-- modules/checkout: sessions that are made from carts and hold stock.
pub mod Errors
pub mod Tables
pub mod Service
pub mod Rows
pub mod Loops
pub mod Outcomes
pub mod Held
pub mod Creation
pub mod Backed
pub mod History
pub mod Laws
pub mod Replay
mod Tests
