-- ===== src/User.antt =====
-- user/: the documents' hooks, the service, the guards and the controllers.
pub mod Schema
pub mod Service
pub mod Guards
pub mod Admin
pub mod Public
pub mod Picture
