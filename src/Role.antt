-- ===== src/Role.antt =====
-- role/: the schema's hook, the service, the guards and the controller.
pub mod Service
pub mod Guards
pub mod Admin
