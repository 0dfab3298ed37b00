-- ===== src/Sensor/Collectors/Kinds.antt =====
-- What the backend makes of an event that the sensor builds (edysor_sensor.py and
-- backend/app/api/v1/events.py, validate_event).
use ai_soc.Prelude.{
  String, ℕ, ◌≡◌, refl, Bool, true, false, not, ◌&&◌, Option, none, some, [], ◌∷◌, ◌++◌, mem_str,
  str_eq, if◌then◌else◌, arith,
}
use ai_soc.Json.{Value, text, Fields}
use ai_soc.Python.{Python}
use ai_soc.Ingest.{Received, event_types, severity_hints, zulu, validate_event}
use ai_soc.Sensor.Events.{
  sensor_event, hint_for_auth, hint_for_process, suspicious_tools, hint_for_network, is_public_ip,
  low_if,
}

pub data Kind : Type 0 where
  process network file auth : Kind

abbrev pub name_of : Kind → String
name_of process = "process"
name_of network = "network"
name_of file = "file"
name_of auth = "auth"

-- Words of small letters stand for themselves under `strip` and `lower`.
abbrev pub Plain : Python → Type 0
Plain py =
    (s : String)
    → mem_str s (event_types ++ severity_hints) ≡ true
    → py.lower (py.strip (py.str (text s))) ≡ s

module _ (py : Python) (iso : String → Option ℕ) (tenant_id : ℕ) (device_id : String) where
  -- a text that the backend reads as a time
  abbrev pub Timely : String → Type 0
  Timely now = (str_eq (py.strip now) "" ≡ false) × (t : ℕ) × (iso (zulu (py.strip now)) ≡ some t)

  -- the row that the backend makes of an event
  abbrev pub row : String → String → ℕ → Fields → Fields → Received
  row kind hint t section raw = record {
    tenant_id = tenant_id;
    device_id = device_id;
    event_type = kind;
    observed_at = t;
    severity_hint = hint;
    payload = section;
    raw = raw;
  }

  abbrev pub Accepts : Value → Type 0
  unfolding validate_event
  Accepts event = (e : Received) × (validate_event py iso tenant_id device_id event ≡ some e)

  known_hint :
      (h : String)
      → mem_str h severity_hints ≡ true
      → mem_str h (event_types ++ severity_hints) ≡ true
  known_hint h m = ground (arith, m)

  module _ (plain : Plain py) where
    pub sensor_event-row :
        (kind : Kind) (now hint : String) (section : Fields)
        → mem_str hint severity_hints ≡ true
        → (time : Timely now)
        → validate_event py iso tenant_id device_id (sensor_event now (name_of kind) hint section)
          ≡ some (row (name_of kind) hint (time.1) section Fields.end)
    unfolding validate_event
    sensor_event-row process now hint section hh (filled, t, e) =
        rw (plain "process" refl, plain hint (known_hint hint hh), hh, filled, e) refl
    sensor_event-row network now hint section hh (filled, t, e) =
        rw (plain "network" refl, plain hint (known_hint hint hh), hh, filled, e) refl
    sensor_event-row file now hint section hh (filled, t, e) =
        rw (plain "file" refl, plain hint (known_hint hint hh), hh, filled, e) refl
    sensor_event-row auth now hint section hh (filled, t, e) =
        rw (plain "auth" refl, plain hint (known_hint hint hh), hh, filled, e) refl

    pub sensor_event-Accepts :
        (kind : Kind) (now hint : String) (section : Fields)
        → mem_str hint severity_hints ≡ true
        → Timely now
        → Accepts (sensor_event now (name_of kind) hint section)
    unfolding Accepts
    sensor_event-Accepts kind now hint section hh time =
        (_, sensor_event-row kind now hint section hh time)

known_if :
    (b : Bool) (x y : String)
    → mem_str x severity_hints ≡ true
    → mem_str y severity_hints ≡ true
    → mem_str (if b then x else y) severity_hints ≡ true
known_if true x y hx hy = hx
known_if false x y hx hy = hy

module _ (py : Python) where
  pub process_hint : (line : String) → mem_str (hint_for_process py line) severity_hints ≡ true
  unfolding hint_for_process
  process_hint line =
      known_if (not (str_eq line "") && py.search suspicious_tools line) "medium" "info" refl refl

  low_if_known : (o : Option Bool) → mem_str (low_if py o) severity_hints ≡ true
  low_if_known none = refl
  low_if_known (some true) = refl
  low_if_known (some false) = refl

  pub network_hint : (ip : String) → mem_str (hint_for_network py ip) severity_hints ≡ true
  unfolding hint_for_network
  network_hint ip = low_if_known (is_public_ip py ip)

pub auth_hint : (action : String) → mem_str (hint_for_auth action) severity_hints ≡ true
unfolding hint_for_auth
auth_hint action =
    known_if (str_eq action "failed_login") "medium"
      (if mem_str action ("login" ∷ "sudo" ∷ "ssh" ∷ []) then "low" else "info") refl
      (known_if (mem_str action ("login" ∷ "sudo" ∷ "ssh" ∷ [])) "low" "info" refl refl)
