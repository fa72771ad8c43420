-- ===== src/Setting.antt =====
-- setting/: the service, the guards, the requests, and the maintenance mode that utils/middleware reads.
pub mod Service
pub mod Controllers
pub mod Maintenance
