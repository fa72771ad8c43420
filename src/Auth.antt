-- ===== src/Auth.antt =====
-- auth/: the service, the payload guards and the two controllers.
pub mod Service
pub mod Login
pub mod Guards
pub mod Password
pub mod SignUp
