-- ===== src/ArrayOps.antt =====
-- internal/arrayops: buoys, calibration bundles, survey missions, callbacks and sessions of an
-- acoustic array, kept in memory behind one mutex.
pub mod Types
pub mod Copy
pub mod Policy
pub mod Store
pub mod Lease
pub mod Capacity
pub mod Worker
mod Tests
