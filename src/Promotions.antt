-- ===== src/Promotions.antt =====
-- The promotions module of the API.
pub mod Amount
pub mod Types
pub mod Engine
mod Tests
