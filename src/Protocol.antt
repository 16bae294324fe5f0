-- ===== src/Protocol.antt =====
-- The keyprov wire codec of include/keyprov_protocol.h and src/keyprov_protocol.cpp.
pub mod Identity
pub mod Names
pub mod Messages
pub mod Checks
pub mod Encode
pub mod Decode
