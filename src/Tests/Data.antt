-- ===== src/Tests/Data.antt =====
-- Test data: a small Python, one tenant with one device, its alerts, commands and events.
use ai_soc.Prelude.{ℕ, String, false, not, refl, none, some, [], ◌∷◌, str_eq}
use ai_soc.Json.{Value, text, int, arr, obj, pos, nil, cons, end, field}
use ai_soc.Python.{Python}
use ai_soc.Store.{Alert, DeviceCommand, pending, acked, Query, answer, Db, SecurityEvent, Watermark}
use ai_soc.Detection.Match.{Intel}

abbrev plain_str : Value → String
plain_str (text s) = s
plain_str _ = "?"

abbrev pub plain : Python
plain = record {
  upper = λ s. s;
  lower = λ s. s;
  strip = λ s. s;
  str = plain_str;
  str-text = λ s. refl;
  json_text = plain_str;
  int_of = λ v. none;
  hour_key = λ t. "hour";
  search = λ pattern s. str_eq pattern s;
  digest16 = λ s. s;
  is_address = λ s. not (str_eq s "");
  is_global = λ s. not (str_eq s "");
  is_loopback = λ s. false;
  is_private = λ s. false;
  is_multicast = λ s. false;
  is_link_local = λ s. false;
  is_reserved = λ s. false;
}

-- a known command-and-control connection, seen by the rules
abbrev pub c2_alert : Alert
c2_alert = record {
  id = 7;
  tenant_id = 1;
  incident_id = none;
  rule_name = "Connection to known C2 infrastructure";
  timestamp = 90000;
  severity = some "HIGH";
  confidence = some 90;
  device_id = some "laptop";
  rule_id = some "known-c2-connection";
  evidence = some (
      field "matched_value" (text "203.0.113.9")
        (field "detector" (text "rules-v1") (field "fingerprint" (text "c2") end)));
}

abbrev pub kill_command : DeviceCommand
kill_command = record {
  id = 3;
  tenant_id = 1;
  device_id = "laptop";
  action = "kill_process";
  params = field "pid" (int (pos 42)) end;
  status = pending;
  created_at = 80000;
  acked_at = none;
  result = none;
}

abbrev pub answered_command : DeviceCommand
answered_command = record kill_command {
  id = 4;
  status = acked;
  acked_at = some 85000;
  result = some end;
}

abbrev pub store_in : Query → Db
store_in mode = record {
  now = 100000;
  next_id = 10;
  alerts = c2_alert ∷ [];
  incidents = [];
  commands = kill_command ∷ answered_command ∷ [];
  playbooks = [];
  executions = [];
  approvals = [];
  audit = [];
  response_mode = λ tenant. mode;
}

abbrev pub store : Db
store = store_in (answer (some "auto_contain"))

abbrev pub event_at : ℕ → String → Value → SecurityEvent
event_at t kind payload = record {
  id = "e1";
  tenant_id = 1;
  device_id = "laptop";
  event_type = kind;
  observed_at = t;
  payload = payload;
}

abbrev pub failed_login : SecurityEvent
failed_login =
    event_at 95000 "auth"
      (obj (field "result" (text "failed") (field "username" (text "root") end)))

-- a process whose hash the history holds
abbrev pub hashed_process : SecurityEvent
hashed_process =
    event_at 96000 "process"
      (obj (field "hash_sha256" (text "abc") (field "name" (text "a.exe") end)))

-- a process whose command line holds a number
abbrev pub odd_process : SecurityEvent
odd_process =
    event_at 97000 "process"
      (obj (field "cmdline" (arr (cons (text "run") (cons (int (pos 1)) nil))) end))

abbrev pub c2_event : SecurityEvent
c2_event = event_at 98000 "network" (obj (field "dst_ip" (text "203.0.113.9") end))

abbrev pub feed : Intel
feed = record {
  c2_ips = "203.0.113.9" ∷ [];
  c2_domains = [];
  malicious_ips = [];
  malicious_domains = [];
}

abbrev pub first_watermark : Watermark
first_watermark = record { last_scan_at = some 50000; events_scanned = 0; alerts_created = 0 }
