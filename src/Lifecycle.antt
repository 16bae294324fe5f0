-- ===== src/Lifecycle.antt =====
-- The key-provisioning lifecycle: include/keyprov_lifecycle.h and src/keyprov_lifecycle.cpp.
-- `Clock` has the parameters, the clock gate and the lease arithmetic, `Decide` the central decision
-- table, `Ledger` the persistent budget ledger.
pub mod Clock
pub mod Decide
pub mod Ledger
