-- ===== src/Gateway.antt =====
-- The vehicle message gateway, src/vehicle_message_gateway.cpp: the exchange of an uplink request and
-- its correlated downlink response.
pub mod Envelope
pub mod Types
pub mod Exchange
pub mod Downlink
pub mod Sweep
pub mod Invariant
pub mod Steps
pub mod Arrivals
pub mod Admission
pub mod Runs
pub mod Stop
pub mod Protection
