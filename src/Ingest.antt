-- ===== src/Ingest.antt =====
-- backend/app/api/v1/events.py: the ingestion of a batch of events. The reading of a timestamp is a
-- parameter, the scoring that the handler then calls is in Detection.Realtime, and what a failure of
-- the database does is left out.
pub mod Answers
pub mod Batches
use Prim.Native.Char.{code}
use Prim.Native.String
use ai_soc.Prelude.{
  ℕ, suc, String, Bool, true, false, not, ◌&&◌, ◌||◌, Option, none, some, List, [], ◌∷◌, ◌++◌, ◌==◌,
  ltb, length, if◌then◌else◌, str_eq, str_append, any_of, mem_str,
}
use ai_soc.Json.{Value, null, text, arr, obj, Fields, end, get, has, or_value, truthy, items_of}
use ai_soc.Python.{Python}

-- a row that the batch adds; its id and its creation time are the database's
pub record Received : Type 0 where
  pub tenant_id : ℕ
  pub device_id : String
  pub event_type : String
  pub observed_at : ℕ
  pub severity_hint : String
  pub payload : Fields
  pub raw : Fields

pub record EndpointAgent : Type 0 where
  pub tenant_id : ℕ
  pub device_id : String
  pub last_seen_at : Option ℕ

pub record Telemetry : Type 0 where
  pub now : ℕ
  pub agents : List EndpointAgent
  pub events : List Received

-- The `HTTPException`s, or the rows and the indices of the events that were refused.
pub data Response : Type 0 where
  bad_request too_large not_found : Response
  ingested : List Received → List ℕ → Response

abbrev pub status_of : Response → ℕ
status_of bad_request = 400
status_of too_large = 413
status_of not_found = 404
status_of (ingested accepted errors) = 200

abbrev pub max_batch : ℕ
max_batch = 1000

-- an `EventType`, and the key of its section in `REQUIRED_SECTION`
abbrev pub event_types : List String
event_types = "process" ∷ "network" ∷ "file" ∷ "auth" ∷ "dns" ∷ []

abbrev pub severity_hints : List String
severity_hints = "info" ∷ "low" ∷ "medium" ∷ "high" ∷ []

-- `s[:-1] + "+00:00"` where `s` ends with `Z`
unfoldable pub zulu : String → String
zulu String.[] = ""
zulu (String.◌∷◌ c s) =
    let rest = zulu s in if str_eq s "" && (code c == 90) then "+00:00" else String.◌∷◌ c rest

abbrev pub member : List String → String → Option String
member known s = if mem_str s known then some s else none

-- `event.get("raw")` where it is absent, null or an object
abbrev pub raw_of : Value → Option Fields
raw_of null = some end
raw_of (obj fs) = some fs
raw_of _ = none

abbrev pub section_of : Value → Option Fields
section_of (obj fs) = some fs
section_of _ = none

-- `iso` is `datetime.fromisoformat`, with UTC where the text names no zone.
module _ (py : Python) (iso : String → Option ℕ) where
  abbrev pub parse_ts : Value → Option ℕ
  unfolding zulu
  parse_ts (text s) = if str_eq (py.strip s) "" then none else iso (zulu (py.strip s))
  parse_ts _ = none

  abbrev pub event_type_of : Value → Option String
  event_type_of v = if truthy v then member event_types (py.lower (py.strip (py.str v))) else none

  abbrev pub severity_of : Fields → Option String
  severity_of event =
      let hint = if has "severity_hint" event then get "severity_hint" event else text "info" in
      member severity_hints (py.lower (py.strip (py.str hint)))

  abbrev pub build :
      ℕ
      → String
      → Option String
      → Option ℕ
      → Option String
      → Option Fields
      → Option Fields
      → Option Received
  build tenant_id device_id (some kind) (some at) (some hint) (some section) (some raw) =
      some (record {
        tenant_id = tenant_id;
        device_id = device_id;
        event_type = kind;
        observed_at = at;
        severity_hint = hint;
        payload = section;
        raw = raw;
      })
  build tenant_id device_id _ _ _ _ _ = none

  abbrev pub section_for : Option String → Fields → Option Fields
  section_for none event = none
  section_for (some kind) event = section_of (get kind event)

  -- `none` where the source raises `ValueError`
  unfoldable pub validate_event : ℕ → String → Value → Option Received
  unfolding parse_ts
  validate_event tenant_id device_id (obj event) =
      let kind = event_type_of (get "event_type" event) in
      build tenant_id device_id kind (parse_ts (get "observed_at" event)) (severity_of event)
        (section_for kind event) (raw_of (get "raw" event))
  validate_event tenant_id device_id _ = none

  abbrev pub sort_out : ℕ → Option Received → List Received × List ℕ → List Received × List ℕ
  sort_out i none (accepted, errors) = (accepted, i ∷ errors)
  sort_out i (some e) (accepted, errors) = (e ∷ accepted, errors)

  -- `for i, raw_event in enumerate(events)`
  unfoldable pub validate_all : ℕ → String → ℕ → List Value → List Received × List ℕ
  unfolding validate_event
  validate_all tenant_id device_id i [] = ([], [])
  validate_all tenant_id device_id i (v ∷ vs) =
      sort_out i (validate_event tenant_id device_id v)
        (validate_all tenant_id device_id (suc i) vs)

abbrev pub is_agent : ℕ → String → EndpointAgent → Bool
is_agent tenant_id device_id a = (a.tenant_id == tenant_id) && str_eq a.device_id device_id

-- `.scalars().first()` of the agents of this device and tenant, which is seen now
abbrev pub touch : ℕ → ℕ → String → List EndpointAgent → List EndpointAgent
touch now tenant_id device_id [] = []
touch now tenant_id device_id (a ∷ rest) =
    let others = touch now tenant_id device_id rest in
    if is_agent tenant_id device_id a
    then record a { last_seen_at = some now } ∷ rest
    else a ∷ others

module _ (py : Python) (iso : String → Option ℕ) where
  abbrev pub accept : ℕ → String → Telemetry → List Value → Response × Telemetry
  unfolding validate_all
  accept tenant_id device_id t events =
      let (accepted, errors) = validate_all py iso tenant_id device_id 0 events in
      (
        ingested accepted errors,
        record t {
          events = t.events ++ accepted;
          agents = touch t.now tenant_id device_id t.agents;
        },
      )

  abbrev pub ingest_list : ℕ → String → Telemetry → List Value → Response × Telemetry
  unfolding accept
  ingest_list tenant_id device_id t events =
      if ltb max_batch (length events)
      then (too_large, t)
      else if not (any_of (is_agent tenant_id device_id) t.agents)
      then (not_found, t)
      else accept tenant_id device_id t events

  abbrev pub ingest_value : ℕ → String → Telemetry → Value → Response × Telemetry
  unfolding ingest_list
  ingest_value tenant_id device_id t (arr events) =
      ingest_list tenant_id device_id t (items_of events)
  ingest_value tenant_id device_id t _ = (bad_request, t)

  unfoldable pub ingest_events : ℕ → Telemetry → Fields → Response × Telemetry
  unfolding ingest_value
  ingest_events tenant_id t body =
      let device_id = py.strip (py.str (or_value (get "device_id" body) (text ""))) in
      if str_eq device_id ""
      then (bad_request, t)
      else ingest_value tenant_id device_id t (get "events" body)
