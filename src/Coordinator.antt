-- ===== src/Coordinator.antt =====
-- src/v2c_key_provisioning_coordinator.cpp and its header: the states and how a stored one is taken up
-- again, the evidence of SEC and its stabilisation, the session identity and the gate before every
-- action on the network.
pub mod States
pub mod Classification
pub mod Evidence
pub mod Readiness
pub mod Session
