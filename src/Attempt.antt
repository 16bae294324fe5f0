-- ===== src/Attempt.antt =====
-- The immutable attempt of key provisioning: include/keyprov_attempt.h and src/keyprov_attempt.cpp.
-- `Canonical` has the canonical encoding, `Snapshot` the frozen input and its change dimensions,
-- `Fingerprint` the fingerprint, `Errors` the classification of cloud errors.
pub mod Canonical
pub mod Snapshot
pub mod Fingerprint
pub mod Errors
