-- ===== src/ApiKey.antt =====
-- apikey/ and auth/guard/api-key, auth/guard/basic: the service, the strategy and the guards.
pub mod Service
pub mod Strategy
pub mod Basic
pub mod Sealed
pub mod Listing
