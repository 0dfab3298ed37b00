-- ===== src/Platform.antt =====
-- The services that the backend's other parts lean on, each a child module.
pub mod Breaker
pub mod Cache
pub mod Limiter
pub mod Requests
pub mod Access
pub mod Sessions
pub mod AuditLog
