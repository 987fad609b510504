-- ===== src/Guard.antt =====
-- internal/guard: admission control.
pub mod Bucket
pub mod Address
pub mod Class
pub mod Limiter
pub mod Admission
pub mod Connections
pub mod Invariant
pub mod Preserve
pub mod Steps
pub mod Methods
pub mod History
pub mod Isolation
pub mod Tracking
pub mod Eviction
