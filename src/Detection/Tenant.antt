-- ===== src/Detection/Tenant.antt =====
-- backend/app/detection/engine.py and features.py: the anomaly pass over device hours, and
-- `scan_tenant`, which joins the passes and moves the watermark.
pub mod Progress
pub mod Blocked
use ai_soc.Prelude.{
  ℕ, suc, ◌+◌, ◌-◌, ◌*◌, String, ◌≡◌, Bool, true, false, not, ◌&&◌, Option, none, some, List, [],
  ◌∷◌, ◌++◌, if◌then◌else◌, str_eq, str_append, mem_str, Attempt, value, type_error, ◌>>=◌, take,
  keep, length, leb, ltb, ◌==◌, or_else,
}
use Prim.Native.Nat.{max}
use ai_soc.Json.{Value, text, end, field}
use ai_soc.Python.{Python}
use ai_soc.Store.{Alert, SecurityEvent, Watermark, Db}
use ai_soc.Detection.Rules.{Finding}
use ai_soc.Detection.Match.{Intel}
use ai_soc.Detection.Batch
use ai_soc.Detection.Correlate
use ai_soc.Detection.Correlate.{Counts, correlate_new_alerts}
use ai_soc.Detection.Scan.{
  first_scan_lookback, dedup_window, max_events_per_scan, history_seconds, anomaly_min_events,
  known_hashes, recent_fingerprints, Pass, rule_pass, flush,
}

-- Events of one device in one hour (UTC).
pub record Bucket : Type 0 where
  pub device : String
  pub hour : String
  pub events : List SecurityEvent

module _ (py : Python) where
  -- `buckets.setdefault(key, []).append(e)`
  abbrev add_to_bucket : SecurityEvent → List Bucket → List Bucket
  add_to_bucket e [] =
      record { device = Batch.device_key e; hour = py.hour_key e.observed_at; events = e ∷ [] } ∷ []
  add_to_bucket e (b ∷ bs) =
      if str_eq b.device (Batch.device_key e) && str_eq b.hour (py.hour_key e.observed_at)
      then record b { events = b.events ++ e ∷ [] } ∷ bs
      else b ∷ add_to_bucket e bs

  pub bucket_by_device_hour : List Bucket → List SecurityEvent → List Bucket
  bucket_by_device_hour buckets [] = buckets
  bucket_by_device_hour buckets (e ∷ es) = bucket_by_device_hour (add_to_bucket e buckets) es

  -- Drafts have no timestamp yet, so each counts for the hour of `now`.
  abbrev alerts_in_hour : ℕ → List Alert → String → String → ℕ
  alerts_in_hour now drafts device hour =
      if str_eq hour (py.hour_key now)
      then length (keep (λ a. str_eq (Correlate.device_key a) device) drafts)
      else 0

  abbrev anomaly_fingerprint : Bucket → String
  anomaly_fingerprint b = str_append "ml-anomaly:" (str_append b.device (str_append ":" b.hour))

  anomaly_alert : ℕ → Bucket → ℕ → Alert
  anomaly_alert tenant_id b score = record {
    id = 0;
    tenant_id = tenant_id;
    incident_id = none;
    rule_name = "Behavioral anomaly (0-day signal)";
    timestamp = 0;
    severity = some "MEDIUM";
    confidence = some score;
    device_id = some b.device;
    rule_id = some "ml-anomaly";
    evidence = some (
        field "fingerprint" (text (anomaly_fingerprint b))
          (field "detector" (text "ml-anomaly-v1") (field "engine" (text "detection-v1") end)));
  }

  -- `predict` builds the features and asks the model: an anomaly's score in percent, or nothing
  -- (no anomaly, or an exception, which is logged).
  pub anomaly_step : ℕ → Bucket → Option ℕ → Pass → Pass
  unfolding anomaly_alert
  anomaly_step tenant_id b none p = p
  anomaly_step tenant_id b (some score) p =
      if mem_str (anomaly_fingerprint b) p.seen then p else record {
        seen = anomaly_fingerprint b ∷ p.seen;
        drafts = p.drafts ++ anomaly_alert tenant_id b score ∷ [];
      }

  pub anomaly_pass : (Bucket → ℕ → Option ℕ) → ℕ → ℕ → List Alert → Pass → List Bucket → Pass
  unfolding anomaly_step
  anomaly_pass predict tenant_id now rule_drafts p [] = p
  anomaly_pass predict tenant_id now rule_drafts p (b ∷ bs) =
      anomaly_pass predict tenant_id now rule_drafts
        (if ltb (length b.events) anomaly_min_events
          then p
          else anomaly_step tenant_id b (predict b (alerts_in_hour now rule_drafts b.device b.hour))
              p)
        bs

-- `ORDER BY observed_at ASC`
abbrev pub insert_by_time : SecurityEvent → List SecurityEvent → List SecurityEvent
insert_by_time e [] = e ∷ []
insert_by_time e (x ∷ xs) =
    if leb e.observed_at x.observed_at then e ∷ x ∷ xs else x ∷ insert_by_time e xs

abbrev pub sort_by_time : List SecurityEvent → List SecurityEvent
sort_by_time [] = []
sort_by_time (e ∷ es) = insert_by_time e (sort_by_time es)

abbrev pub is_after : ℕ → ℕ → SecurityEvent → Bool
is_after tenant_id since e = (e.tenant_id == tenant_id) && ltb since e.observed_at

unfoldable pub events_since : ℕ → ℕ → List SecurityEvent → List SecurityEvent
events_since tenant_id since es =
    take max_events_per_scan (sort_by_time (keep (is_after tenant_id since) es))

pub max_observed : ℕ → List SecurityEvent → ℕ
max_observed m [] = m
max_observed m (e ∷ es) = max_observed (if ltb m e.observed_at then e.observed_at else m) es

-- where the scan starts: `none` is the `ValueError` on a bad `lookback_hours`
abbrev scan_since : ℕ → Watermark → Option ℕ → Option ℕ
scan_since now wm none = some (or_else wm.last_scan_at (now - first_scan_lookback))
scan_since now wm (some hours) =
    if leb 1 hours && leb hours 720 then some (now - hours * 3600) else none

abbrev scan_dedup_window : Option ℕ → ℕ
scan_dedup_window none = dedup_window
scan_dedup_window (some hours) = max dedup_window (hours * 3600)

pub data ScanResult : Type 0 where
  bad_lookback raised_type_error : ScanResult
  scanned : Counts → List Alert → Watermark → Db → ScanResult

abbrev advanced : Watermark → ℕ → ℕ → List SecurityEvent → List Alert → Watermark
advanced wm now since events rows = record {
  last_scan_at = some (if length events == 0 then now else max_observed since events);
  events_scanned = wm.events_scanned + length events;
  alerts_created = wm.alerts_created + length rows;
}

module _ (py : Python) (models : Option (Bucket → ℕ → Option ℕ)) (tenant_id : ℕ) where
  abbrev with_anomalies : ℕ → List SecurityEvent → Pass → Pass
  with_anomalies now events p = elim models [
    | none ↦ p
    | some predict ↦
        anomaly_pass py predict tenant_id now p.drafts p (bucket_by_device_hour py [] events)
  ]

  -- flush, correlate, advance the watermark and commit
  pub finish_scan : Db → Watermark → ℕ → List SecurityEvent → Attempt Pass → ScanResult
  finish_scan db wm since events type_error = raised_type_error
  finish_scan db wm since events (value p) =
      let (rows, db₁) = flush db (with_anomalies db.now events p).drafts in
      let (counts, db₂) = correlate_new_alerts py tenant_id db₁ rows in
      scanned counts rows (advanced wm db.now since events rows) db₂

  abbrev scan_from : Db → List SecurityEvent → Intel → Watermark → ℕ → Option ℕ → ScanResult
  scan_from db stored intel wm window none = bad_lookback
  scan_from db stored intel wm window (some since) =
      let events = events_since tenant_id since stored in
      let known = known_hashes py tenant_id (db.now - history_seconds) stored in
      let seen = recent_fingerprints db tenant_id (db.now - window) in
      finish_scan db wm since events (
        rule_pass py (λ f. true) (some known) intel tenant_id (record { seen = seen; drafts = [] })
          events)

  pub scan_tenant : Db → List SecurityEvent → Intel → Watermark → Option ℕ → ScanResult
  unfolding events_since finish_scan
  scan_tenant db stored intel wm lookback =
      scan_from db stored intel wm (scan_dedup_window lookback) (scan_since db.now wm lookback)
