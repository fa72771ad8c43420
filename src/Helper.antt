-- ===== src/Helper.antt =====
-- utils/helper/service: the helpers with logic of their own.
pub mod Date
pub mod Array
pub mod Check
pub mod Text
pub mod Convert
pub mod Split
pub mod Last
