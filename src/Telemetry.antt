-- ===== src/Telemetry.antt =====
-- internal/telemetry: streams of acoustic segments that are collected, checked and sealed, with the
-- leases, capacities and deliveries around them.
pub mod Types
pub mod Stream
pub mod Lease
pub mod Capacity
pub mod Delivery
pub mod Classify
pub mod Batch
pub mod Broadcast
pub mod Consumer
mod Tests
