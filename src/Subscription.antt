-- ===== src/Subscription.antt =====
-- The business subscriptions: directory, snapshot, persistence and registration with the MQTT daemon.
pub mod Types
pub mod Catalog
pub mod Builder
pub mod Store
pub mod RegistrationState
pub mod Registrar
