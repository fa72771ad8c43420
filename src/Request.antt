-- ===== src/Request.antt =====
-- utils/request: the guard of the path parameters.
pub mod Version
pub mod Validation
pub mod Param
pub mod Headers
pub mod Clock
