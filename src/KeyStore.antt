-- ===== src/KeyStore.antt =====
-- The stored record of the key provisioning, src/v2c_key_provisioning_store.cpp.
pub mod Record
pub mod Hex
pub mod Json
pub mod Write
pub mod Read
pub mod Load
