-- ===== src/Tests.antt =====
-- Concrete inputs: the data that the tests share, and the theorems at work on it.
mod Data
mod Policy
mod Queue
mod Detection
mod Services
mod Sensor
mod Collectors
mod Intel
mod Requests
mod Retrain
mod Incidents
mod Workflow
mod Ingest
mod Limiter
