-- ===== src/Shipping.antt =====
-- modules/shipping: shipments of orders and the webhooks of their carriers.
pub mod Status
pub mod Tables
pub mod Service
pub mod Trail
pub mod Webhooks
pub mod Creation
pub mod History
pub mod Terminal
mod Tests
