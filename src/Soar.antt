-- ===== src/Soar.antt =====
-- intelligence_engine/soar: playbooks and their approvals, and workflows as graphs.
pub mod Playbooks
pub mod Workflow
pub mod Execution
