-- ===== src/Protocol.antt =====
-- src/protocol/protocol.h and protocol.c: messages and their bytes.
pub mod Bytes
pub mod Header
pub mod Name
pub mod Question
pub mod Record
pub mod Totality
