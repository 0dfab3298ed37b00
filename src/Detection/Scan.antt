-- ===== src/Detection/Scan.antt =====
-- backend/app/detection/engine.py: one detection pass over the events of a tenant. Times are in
-- seconds. The anomaly model (floating-point features and scikit-learn) is a parameter.
pub mod Fresh
pub mod Known
pub mod Faults
use ai_soc.Prelude.{
  ℕ, suc, ◌+◌, ◌-◌, ◌*◌, String, ◌≡◌, Bool, true, false, not, ◌&&◌, Option, none, some, List, [],
  ◌∷◌, ◌++◌, if◌then◌else◌, str_eq, str_append, mem_str, Attempt, value, type_error, ◌>>=◌, take,
  keep, length, leb, ltb, ◌==◌, or_else,
}
use ai_soc.Json.{Value, null, text, Fields, end, field, get, fields_of}
use ai_soc.Python.{Python}
use ai_soc.Store.{Alert, SecurityEvent, Watermark, Db}
use ai_soc.Detection.Rules.{Finding}
use ai_soc.Detection.Match.{match_rules, match_ioc_rules, Intel}
use ai_soc.Detection.Batch.{match_batch_rules}
use ai_soc.Detection.Correlate.{Counts, correlate_new_alerts, device_key}

abbrev pub first_scan_lookback : ℕ
first_scan_lookback = 86400

abbrev pub dedup_window : ℕ
dedup_window = 21600

abbrev pub max_events_per_scan : ℕ
max_events_per_scan = 5000

abbrev pub history_seconds : ℕ
history_seconds = 30 * 86400

abbrev pub anomaly_min_events : ℕ
anomaly_min_events = 5

-- `{**fields, k: v}`
abbrev put : String → Value → Fields → Fields
put k v end = field k v end
put k v (field j w fs) = if str_eq j k then field j v fs else field j w (put k v fs)

-- The row is given its id and timestamp when it is flushed.
unfoldable pub build_rule_alert : ℕ → Value → String → Finding → Alert
build_rule_alert tenant_id event_id device f = record {
  id = 0;
  tenant_id = tenant_id;
  incident_id = none;
  rule_name = f.rule_name;
  timestamp = 0;
  severity = some f.severity;
  confidence = some f.confidence;
  device_id = some device;
  rule_id = some f.rule_id;
  evidence = some (
      put "event_id" event_id (
        put "engine" (text "detection-v1")
          (put "detector" (text "rules-v1") (put "fingerprint" (text f.fingerprint) f.evidence))));
}

-- Fingerprints of the alerts raised since an instant.
abbrev fingerprint_in : Alert → List String
fingerprint_in a = elim (get "fingerprint" (or_else a.evidence end)) [
  | text s ↦ if str_eq s "" then [] else s ∷ []
  | _ ↦ []
]

abbrev has_rule : Alert → Bool
has_rule a = elim a.rule_id [ none ↦ false | some r ↦ true ]

abbrev fingerprints_of : ℕ → ℕ → List Alert → List String
fingerprints_of tenant_id since [] = []
fingerprints_of tenant_id since (a ∷ rest) =
    let more = fingerprints_of tenant_id since rest in
    if (a.tenant_id == tenant_id) && (leb since a.timestamp && has_rule a)
    then fingerprint_in a ++ more
    else more

pub recent_fingerprints : Db → ℕ → ℕ → List String
recent_fingerprints db tenant_id since = fingerprints_of tenant_id since db.alerts

module _ (py : Python) where
  -- `{r for r in rows if r}` over `payload ->> 'hash_sha256'`
  abbrev hash_text : Value → List String
  hash_text null = []
  hash_text (text s) = if str_eq s "" then [] else s ∷ []
  hash_text v = if str_eq (py.json_text v) "" then [] else py.json_text v ∷ []

  pub known_hashes : ℕ → ℕ → List SecurityEvent → List String
  known_hashes tenant_id since [] = []
  known_hashes tenant_id since (e ∷ rest) =
      let more = known_hashes tenant_id since rest in
      if (e.tenant_id == tenant_id) && (str_eq e.event_type "process" && leb since e.observed_at)
      then hash_text (get "hash_sha256" (fields_of e.payload)) ++ more
      else more

-- The fingerprints seen and the alerts drafted so far.
pub record Pass : Type 0 where
  pub seen : List String
  pub drafts : List Alert

-- `if fp in seen_fps: continue`, and else one more alert; `admits` is the severity filter.
unfoldable pub take_finding : (Finding → Bool) → ℕ → Value → String → Pass → Finding → Pass
take_finding admits tenant_id event_id device p f =
    if not (admits f) then p else if mem_str f.fingerprint p.seen then p else record {
      seen = f.fingerprint ∷ p.seen;
      drafts = p.drafts ++ build_rule_alert tenant_id event_id device f ∷ [];
    }

unfoldable pub take_findings : (Finding → Bool) → ℕ → Value → String → Pass → List Finding → Pass
unfolding take_finding
take_findings admits tenant_id event_id device p [] = p
take_findings admits tenant_id event_id device p (f ∷ fs) =
    take_findings admits tenant_id event_id device
      (take_finding admits tenant_id event_id device p f) fs

module _ (py : Python) (admits : Finding → Bool) (known : Option (List String)) (intel : Intel)
    (tenant_id : ℕ) where
  unfoldable pub event_pass : Pass → SecurityEvent → Attempt Pass
  event_pass p ev = do
    found ← match_rules py known ev
    iocs ← match_ioc_rules py intel ev
    let p₁ = take_findings admits tenant_id (text ev.id) ev.device_id p found
    value (take_findings admits tenant_id (text ev.id) ev.device_id p₁ iocs)

  unfoldable pub events_pass : Pass → List SecurityEvent → Attempt Pass
  events_pass p [] = value p
  events_pass p (ev ∷ evs) = do p₁ ← event_pass p ev; events_pass p₁ evs

  -- each finding of the batch rules names its own device
  unfoldable pub batch_pass : Pass → List Finding → Pass
  unfolding take_finding
  batch_pass p [] = p
  batch_pass p (f ∷ fs) = batch_pass (take_finding admits tenant_id null f.device_id p f) fs

  unfoldable pub rule_pass : Pass → List SecurityEvent → Attempt Pass
  unfolding events_pass batch_pass
  rule_pass p evs = do
    p₁ ← events_pass p evs
    found ← match_batch_rules py evs
    value (batch_pass p₁ found)

-- `db.flush()`: rows get their ids and the time of the transaction.
pub flush : Db → List Alert → List Alert × Db
flush db [] = ([], db)
flush db (a ∷ rest) =
    let row : Alert = record a { id = db.next_id; timestamp = db.now } in
    let (rows, db₁) =
      flush (record db { alerts = db.alerts ++ row ∷ []; next_id = suc db.next_id }) rest in
    (row ∷ rows, db₁)
