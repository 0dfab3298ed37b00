-- ===== src/Response.antt =====
-- backend/app/response: the autonomous response policy and the command queue of the sensors.
pub mod Policy
pub mod Queue
