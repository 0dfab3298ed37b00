-- ===== src/Store.antt =====
-- The rows that detection and response share: backend/app/domain/models.py (alerts, incidents,
-- playbook executions, approvals, watermarks, events) and backend/app/response/models.py.
-- A table is the list of its rows, oldest first. Titles and descriptions (free text for people)
-- are left out. One counter `next_id` serves all tables in place of one sequence for each.
use ai_soc.Prelude.{ℕ, String, Bool, true, false, Option, List}
use ai_soc.Json.{Fields, Value}

pub record Alert : Type 0 where
  pub id : ℕ
  pub tenant_id : ℕ
  pub incident_id : Option ℕ
  pub rule_name : String
  pub timestamp : ℕ
  pub severity : Option String
  pub confidence : Option ℕ
  pub device_id : Option String
  pub rule_id : Option String
  pub evidence : Option Fields

pub data IncidentStatus : Type 0 where
  open_status in_progress resolved closed : IncidentStatus

pub data Severity : Type 0 where
  low medium high critical : Severity

pub record Incident : Type 0 where
  pub id : ℕ
  pub tenant_id : ℕ
  pub severity : Severity
  pub status : IncidentStatus
  pub verdict : String
  pub analyst_notes : Option String
  pub created_at : ℕ

-- response/models.py: the lifecycle of a command is pending → delivered → acked | failed.
pub data CommandStatus : Type 0 where
  pending delivered acked failed : CommandStatus

pub record DeviceCommand : Type 0 where
  pub id : ℕ
  pub tenant_id : ℕ
  pub device_id : String
  pub action : String
  pub params : Fields
  pub status : CommandStatus
  pub created_at : ℕ
  pub acked_at : Option ℕ
  pub result : Option Fields

pub record Proposal : Type 0 where
  pub action : String
  pub params : Fields

pub data Reason : Type 0 where
  auto_gate_not_met : Reason
  destructive_action : String → Reason

pub record Playbook : Type 0 where
  pub id : ℕ
  pub tenant_id : ℕ
  pub name : String
  pub is_active : Bool

-- a playbook execution with the `context_data` of an autonomous-response proposal
pub record PlaybookExecution : Type 0 where
  pub id : ℕ
  pub tenant_id : ℕ
  pub playbook_id : ℕ
  pub alert_id : ℕ
  pub device_id : Option String
  pub proposed_actions : List Proposal
  pub reason : Reason

pub data ApprovalStatus : Type 0 where
  waiting approved rejected : ApprovalStatus

pub record ApprovalRequest : Type 0 where
  pub id : ℕ
  pub tenant_id : ℕ
  pub execution_id : ℕ
  pub status : ApprovalStatus

pub data WouldHave : Type 0 where
  would_auto_commands would_approval : WouldHave

-- what `audit_logger.emit("response_dry_run", …)` is given
pub record DryRunAudit : Type 0 where
  pub tenant_id : ℕ
  pub alert_id : ℕ
  pub would_have : WouldHave
  pub actions : List Proposal

-- the answer to `select(Tenant.response_mode)`: the query may raise, or find no row
pub data Query : Type 0 where
  raised : Query
  answer : Option String → Query

pub record SecurityEvent : Type 0 where
  pub id : String
  pub tenant_id : ℕ
  pub device_id : String
  pub event_type : String
  pub observed_at : ℕ
  pub payload : Value

pub record Watermark : Type 0 where
  pub last_scan_at : Option ℕ
  pub events_scanned : ℕ
  pub alerts_created : ℕ

-- `now` is the clock of the running transaction.
pub record Db : Type 0 where
  pub now : ℕ
  pub next_id : ℕ
  pub alerts : List Alert
  pub incidents : List Incident
  pub commands : List DeviceCommand
  pub playbooks : List Playbook
  pub executions : List PlaybookExecution
  pub approvals : List ApprovalRequest
  pub audit : List DryRunAudit
  pub response_mode : ℕ → Query

abbrev pub is_live : CommandStatus → Bool
is_live pending = true
is_live delivered = true
is_live _ = false

abbrev pub is_open : IncidentStatus → Bool
is_open open_status = true
is_open _ = false
