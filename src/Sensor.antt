-- ===== src/Sensor.antt =====
-- sensor/: the program that runs on the endpoint.
pub mod Events
pub mod Snapshots
pub mod Collectors
pub mod Endpoint
pub mod Persistence
pub mod Commands
pub mod Spool
