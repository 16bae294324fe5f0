-- ===== src/Tests.antt =====
-- Witnesses at concrete inputs, one module for each component.
mod Data
mod LifecycleTests
mod SubscriptionTests
mod PublisherTests
mod GatewayTests
mod AttemptTests
mod JsonData
mod KeyStoreTests
mod ProtocolTests
mod CoordinatorTests
