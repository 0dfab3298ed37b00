-- ===== src/Detection.antt =====
-- backend/app/detection: rules over telemetry, correlation into incidents, the scan and the
-- scoring at ingest.
pub mod Rules
pub mod Match
pub mod Batch
pub mod Correlate
pub mod Scan
pub mod Realtime
pub mod Tenant
