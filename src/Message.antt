-- ===== src/Message.antt =====
-- message/: the texts of the answers, of message/service/message.service.ts.
pub mod Errors
pub mod Service
pub mod Languages
