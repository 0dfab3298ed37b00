-- ===== src/Sensor/Collectors/Detected.antt =====
-- From a change of a Run value to the alert: the collector of the sensor, the validation of the
-- backend and the rule on autorun persistence (edysor_sensor.py, events.py and detection/rules.py).
use ai_soc.Prelude.{
  String, ℕ, ◌≡◌, refl, ap, sym, true, Option, some, str_eq, is_infix, eq_iff, Attempt, value,
  Bool-cases, inl, inr,
}
use ai_soc.Json.{text, obj, end, get, or_value}
use ai_soc.Python.{Python}
use ai_soc.Store.{SecurityEvent}
use ai_soc.Ingest.{Received, validate_event}
use ai_soc.Detection.Rules.{Finding, section, fingerprint, texts_of, rule_persistence_change}
use ai_soc.Sensor.Snapshots.{Action, created, modified, deleted, Change}
use ai_soc.Sensor.Collectors.{Readings}
use ai_soc.Sensor.Collectors.Files.{run_event, path_of, action_name, file_section, hash_of_data}
use ai_soc.Sensor.Collectors.Kinds.{Plain, Timely, file, row, sensor_event-row}

-- The stored event of a row that the backend took in.
abbrev pub stored_event : String → Received → SecurityEvent
stored_event id e = record {
  id = id;
  tenant_id = e.tenant_id;
  device_id = e.device_id;
  event_type = e.event_type;
  observed_at = e.observed_at;
  payload = obj e.payload;
}

abbrev pub IsAppearance : Action → Type 0
IsAppearance deleted = ⊥
IsAppearance _ = Unit

-- What the rule reports of a path.
pub record Reported (path : String) (action : Action) (result : Attempt (Option Finding))
    : Type 0 where
  pub finding : Finding
  pub returned : result ≡ value (some finding)
  pub rule : finding.rule_id ≡ "persistence-change"
  pub place : get "path" finding.evidence ≡ text path
  pub how : get "action" finding.evidence ≡ text (action_name action)

text_or_empty : (s : String) → or_value (text s) (text "") ≡ text s
text_or_empty s = elim (Bool-cases (str_eq s "")) [
  | inl empty ↦ rw empty (ap text (sym ((eq_iff s "").0 empty)))
  | inr filled ↦ rw filled refl
]

module _ (py : Python) where
  abbrev file_row : String → Action → Option String → Received → Received
  file_row path action hash e = record e {
    event_type = "file";
    payload = file_section path action hash;
  }

  rule_fires :
      (id path : String) (action : Action) (hash : Option String) (e : Received)
      → IsAppearance action
      → is_infix "currentversion\\run" (py.lower path) ≡ true
      → Reported path action
          (rule_persistence_change py (stored_event id (file_row path action hash e)))
  unfolding rule_persistence_change section fingerprint texts_of
  rule_fires id path created hash e a marker =
      rw (text_or_empty path, py.str-text path, py.str-text "created", marker)
        (record { finding = _; returned = refl; rule = refl; place = refl; how = refl })
  rule_fires id path modified hash e a marker =
      rw (text_or_empty path, py.str-text path, py.str-text "modified", marker)
        (record { finding = _; returned = refl; rule = refl; place = refl; how = refl })
  rule_fires id path deleted hash e a marker = elim a [ ]

module _ (py : Python) (iso : String → Option ℕ) (tenant_id : ℕ) (device_id : String)
    (plain : Plain py) (r : Readings) where
  -- A value that appears or changes under a key whose path holds the marker of autorun is reported
  -- end to end: the backend accepts the event of the collector, and on the stored event the rule on
  -- persistence returns a finding with the path of the value and what became of it.
  pub run_event-Reported :
      (key : String) (c : Change String) (id : String)
      → IsAppearance (c.action)
      → is_infix "currentversion\\run" (py.lower (path_of key (c.name))) ≡ true
      → Timely py iso tenant_id device_id (r.now_iso (path_of key (c.name)))
      → (e : Received) × (validate_event py iso tenant_id device_id (run_event r key c) ≡ some e)
        × Reported
            (path_of key (c.name))
            (c.action)
            (rule_persistence_change py (stored_event id e))
  unfolding run_event
  run_event-Reported key c id a marker time = (
    _,
    sensor_event-row py iso tenant_id device_id plain file _ _ _ refl time,
    rule_fires py id (path_of key (c.name)) (c.action) (hash_of_data r (c.now))
        (row py iso tenant_id device_id "file" "high" (time.1) end end) a marker,
  )
