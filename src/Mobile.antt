-- ===== src/Mobile.antt =====
-- The library for mobile applications, mobile.
pub mod Discovery
pub mod Api
pub mod Control
pub mod Life
