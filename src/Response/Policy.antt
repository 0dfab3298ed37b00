-- ===== src/Response/Policy.antt =====
-- backend/app/response/policy.py: from one alert to device commands, an approval request, or
-- nothing. Database calls other than the read of the response mode are taken to succeed.
pub mod Proposals
pub mod Safety
pub mod Modes
pub mod Dedup
use ai_soc.Prelude.{
  ℕ, suc, ◌+◌, String, ◌≡◌, Bool, true, false, not, ◌&&◌, ◌||◌, Option, none, some, List, [], ◌∷◌,
  ◌++◌, map, ◌==◌, leb, if◌then◌else◌, or_else, str_eq, starts_with, mem_str, any_of, keep, take,
  length,
}
use ai_soc.Json.{
  Value, text, Fields, end, field, get, or_value, fields_of, list_of, is_positive_int, is_text,
  same, obj,
}
use ai_soc.Python.{Python}
use ai_soc.Store.{
  Alert, DeviceCommand, Proposal, Reason, auto_gate_not_met, destructive_action, Playbook,
  PlaybookExecution, ApprovalRequest, waiting, WouldHave, would_auto_commands, would_approval,
  DryRunAudit, Query, raised, answer, Db, is_live, pending,
}

abbrev pub command_actions : List String
command_actions = "kill_process" ∷ "block_ip" ∷ "quarantine_file" ∷ "remove_persistence" ∷ []

abbrev pub destructive_actions : List String
destructive_actions = "quarantine_file" ∷ "remove_persistence" ∷ []

abbrev pub auto_severities : List String
auto_severities = "HIGH" ∷ "CRITICAL" ∷ []

abbrev pub acting_severities : List String
acting_severities = "MEDIUM" ∷ "HIGH" ∷ "CRITICAL" ∷ []

abbrev pub auto_min_confidence : ℕ
auto_min_confidence = 80

abbrev pub destructive_min_confidence : ℕ
destructive_min_confidence = 95

abbrev pub response_modes : List String
response_modes = "dry_run" ∷ "approvals_only" ∷ "auto_contain" ∷ []

abbrev pub system_playbook_name : String
system_playbook_name = "Autonomous response"

-- `mode if mode in RESPONSE_MODES else "dry_run"`; an exception leaves `mode = None`
abbrev known_mode : Option String → String
known_mode none = "dry_run"
known_mode (some mode) = if mem_str mode response_modes then mode else "dry_run"

abbrev mode_of_query : Query → String
mode_of_query raised = "dry_run"
mode_of_query (answer mode) = known_mode mode

pub tenant_response_mode : Db → ℕ → String
tenant_response_mode db tenant_id = mode_of_query (db.response_mode tenant_id)

abbrev evidence_of : Alert → Fields
evidence_of a = or_else a.evidence end

module _ (py : Python) where
  pub detector : Alert → String
  detector a = py.str (or_value (get "detector" (evidence_of a)) (text ""))

  -- a public address, or nothing: `ip_address` may raise `ValueError`
  block_address : String → List Proposal
  block_address ip =
      if not (str_eq ip "") && (py.is_address ip && py.is_global ip)
      then record { action = "block_ip"; params = field "ip" (text ip) end } ∷ []
      else []

  block_all : List Value → List Proposal
  block_all [] = []
  block_all (v ∷ vs) = block_address (py.strip (py.str (or_value v (text "")))) ++ block_all vs

  block_matched : Fields → List Proposal
  block_matched ev =
      block_address (
        py.strip
          (py.str (or_value (or_value (get "matched_value" ev) (get "dst_ip" ev)) (text ""))))

abbrev pid_param : Value → Fields → Fields
pid_param pid rest = if is_positive_int pid then field "pid" pid rest else rest

abbrev is_process_name : Value → Bool
is_process_name (text s) = not (str_eq s "") && not (str_eq s "unknown process")
is_process_name _ = false

abbrev name_param : Value → Fields
name_param name = if is_process_name name then field "name" name end else end

abbrev when_any_param : Fields → List Proposal
when_any_param end = []
when_any_param (field k v fs) = record { action = "kill_process"; params = field k v fs } ∷ []

kill_process : Fields → List Proposal
kill_process ev =
    let proc = fields_of (get "process" ev) in
    when_any_param (pid_param (get "pid" proc) (name_param (get "name" proc)))

abbrev remove_path : String → List Proposal
remove_path path =
    if not (str_eq path "")
    then record { action = "remove_persistence"; params = field "path" (text path) end } ∷ []
    else []

abbrev is_allowed : Proposal → Bool
is_allowed p = mem_str p.action command_actions

module _ (py : Python) where
  -- the `if`/`elif` chain on the rule
  candidates : String → Fields → List Proposal
  unfolding kill_process block_all block_matched
  candidates rule_id ev =
      if str_eq rule_id "suspicious-cmdline"
      then kill_process ev
      else if str_eq rule_id "rare-outbound-port"
      then block_address py (py.str (or_value (get "dst_ip" ev) (text "")))
      else if str_eq rule_id "persistence-change"
      then remove_path (py.str (or_value (get "path" ev) (text "")))
      else if str_eq rule_id "brute-force-auth"
      then block_all py (take 5 (list_of (get "src_ips" ev)))
      else if str_eq rule_id "known-c2-connection"
      then block_matched py ev
      else if str_eq rule_id "known-malicious-connection"
      then block_matched py ev
      else []

  pub propose_actions : Alert → List Proposal
  unfolding candidates
  propose_actions a = keep is_allowed (candidates (or_else a.rule_id "") (evidence_of a))

-- an identical command of this device that has not been answered yet
abbrev pub matches : ℕ → String → Proposal → DeviceCommand → Bool
matches tenant_id device_id p c =
    (c.tenant_id == tenant_id)
    && (str_eq c.device_id device_id
        && (str_eq c.action p.action && (is_live c.status && same (obj c.params) (obj p.params))))

unfoldable pub command_exists : Db → ℕ → String → Proposal → Bool
unfolding same
command_exists db tenant_id device_id p = any_of (matches tenant_id device_id p) db.commands

abbrev find_playbook : ℕ → List Playbook → Option Playbook
find_playbook tenant_id [] = none
find_playbook tenant_id (pb ∷ pbs) =
    if (pb.tenant_id == tenant_id) && str_eq pb.name system_playbook_name
    then some pb
    else find_playbook tenant_id pbs

pub get_system_playbook : Db → ℕ → Playbook × Db
get_system_playbook db tenant_id = elim (find_playbook tenant_id db.playbooks) [
  | some pb ↦ (pb, db)
  | none ↦
      let pb : Playbook = record {
        id = db.next_id;
        tenant_id = tenant_id;
        name = system_playbook_name;
        is_active = true;
      } in
      (pb, record db { playbooks = db.playbooks ++ pb ∷ []; next_id = suc db.next_id })
]

pub data Outcome : Type 0 where
  skipped no_action : Outcome
  dry_run : WouldHave → Outcome
  approval_requested : ℕ → List String → Outcome
  auto_commands : List ℕ → List String → Outcome

abbrev action_names : List Proposal → List String
action_names = map (λ p. p.action)

pub request_approval : Db → Alert → List Proposal → Reason → Outcome × Db
request_approval db a actions reason =
    let (pb, db₁) = get_system_playbook db a.tenant_id in
    let execution : PlaybookExecution = record {
      id = db₁.next_id;
      tenant_id = a.tenant_id;
      playbook_id = pb.id;
      alert_id = a.id;
      device_id = a.device_id;
      proposed_actions = actions;
      reason = reason;
    } in
    let request : ApprovalRequest = record {
      id = suc db₁.next_id;
      tenant_id = a.tenant_id;
      execution_id = db₁.next_id;
      status = waiting;
    } in
    (
      approval_requested (suc db₁.next_id) (action_names actions),
      record db₁ {
        executions = db₁.executions ++ execution ∷ [];
        approvals = db₁.approvals ++ request ∷ [];
        next_id = suc (suc db₁.next_id);
      },
    )

abbrev pub new_command : Db → ℕ → String → Proposal → DeviceCommand
new_command db tenant_id device_id p = record {
  id = db.next_id;
  tenant_id = tenant_id;
  device_id = device_id;
  action = p.action;
  params = p.params;
  status = pending;
  created_at = db.now;
  acked_at = none;
  result = none;
}

abbrev pub add_command : Db → DeviceCommand → Db
add_command db c = record db { commands = db.commands ++ c ∷ []; next_id = suc db.next_id }

-- the loop over `auto_actions`; `created` collects the ids of the new commands
pub issue : Db → ℕ → String → List Proposal → List ℕ → List ℕ × Db
issue db tenant_id device_id [] created = (created, db)
issue db tenant_id device_id (p ∷ ps) created =
    let kept = issue db tenant_id device_id ps created in
    let added =
      issue (add_command db (new_command db tenant_id device_id p)) tenant_id device_id ps
        (created ++ db.next_id ∷ []) in
    if command_exists db tenant_id device_id p then kept else added

abbrev pub is_destructive : Proposal → Bool
is_destructive p = mem_str p.action destructive_actions

abbrev pub passes_destructive_gate : String → ℕ → Bool
passes_destructive_gate severity confidence =
    str_eq severity "CRITICAL" && leb destructive_min_confidence confidence

-- the first action that the strict gate holds back
pub held_back : String → ℕ → List Proposal → Option Proposal
held_back severity confidence [] = none
held_back severity confidence (p ∷ ps) =
    if is_destructive p && not (passes_destructive_gate severity confidence)
    then some p
    else held_back severity confidence ps

module _ (py : Python) where
  abbrev pub severity_of : Alert → String
  severity_of a = py.upper (or_else a.severity "")

  abbrev pub confidence_of : Alert → ℕ
  confidence_of a = or_else a.confidence 0

  pub auto_eligible : Alert → Bool
  unfolding detector
  auto_eligible a =
      mem_str (severity_of a) auto_severities
      && (leb auto_min_confidence (confidence_of a) && starts_with (detector py a) "rules-")

  pub observe : Db → Alert → List Proposal → Outcome × Db
  unfolding auto_eligible
  observe db a actions =
      let would = if auto_eligible a then would_auto_commands else would_approval in
      let entry : DryRunAudit = record {
        tenant_id = a.tenant_id;
        alert_id = a.id;
        would_have = would;
        actions = actions;
      } in
      (dry_run would, record db { audit = db.audit ++ entry ∷ [] })

  pub contain : Db → Alert → String → List Proposal → Outcome × Db
  unfolding held_back issue request_approval
  contain db a device_id actions = elim (held_back (severity_of a) (confidence_of a) actions) [
    | some p ↦ request_approval db a actions (destructive_action p.action)
    | none ↦
        let (created, db₁) = issue db a.tenant_id device_id actions [] in
        (auto_commands created (action_names actions), db₁)
  ]

  pub respond : Db → Alert → String → List Proposal → Outcome × Db
  unfolding tenant_response_mode observe contain
  respond db a device_id actions =
      let mode = tenant_response_mode db a.tenant_id in
      if str_eq mode "dry_run"
      then observe db a actions
      else if not (str_eq mode "auto_contain") || not (auto_eligible a)
      then request_approval db a actions auto_gate_not_met
      else contain db a device_id actions

  -- `evaluate_response_policy` is this function behind a handler that logs what it raises.
  pub evaluate : Db → Alert → Outcome × Db
  unfolding propose_actions respond
  evaluate db a =
      let device_id = or_else a.device_id "" in
      if str_eq device_id ""
      then (skipped, db)
      else if not (mem_str (severity_of a) acting_severities)
      then (no_action, db)
      else elim (propose_actions py a) [
        | [] ↦ (no_action, db)
        | p ∷ ps ↦ respond db a device_id (p ∷ ps)
      ]
