-- ===== src/Detection/Correlate.antt =====
-- backend/app/detection/correlate.py: new alerts are grouped by device, and each group joins an
-- open incident of its device or opens a new one. Titles and descriptions are left out.
pub mod Counting
pub mod Grouping
pub mod Linking
use ai_soc.Prelude.{
  ℕ, suc, ◌+◌, ◌-◌, String, ◌≡◌, Bool, true, false, not, ◌&&◌, ◌||◌, Option, none, some, List, [],
  ◌∷◌, ◌++◌, map, if◌then◌else◌, str_eq, ◌==◌, leb, ltb, length, or_else, any_of, keep, starts_with,
}
use ai_soc.Prelude.Assoc.{Assoc, lookup, insert}
use ai_soc.Python.{Python}
use ai_soc.Store.{Alert, Incident, Db, Severity, low, medium, high, critical, open_status, is_open}

-- 24 hours, in seconds
abbrev pub correlation_window : ℕ
correlation_window = 86400

-- `_SEVERITY_ORDER.get(s, 0)`
abbrev pub severity_order : String → ℕ
severity_order s =
    if str_eq s "MEDIUM"
    then 1
    else if str_eq s "HIGH"
    then 2
    else if str_eq s "CRITICAL"
    then 3
    else 0

module _ (py : Python) where
  abbrev severity_text : Alert → String
  severity_text a = py.upper (or_else (truthy_text a.severity) "LOW")
    where
      truthy_text : Option String → Option String
      truthy_text none = none
      truthy_text (some s) = if str_eq s "" then none else some s

  -- `SeverityEnum.__members__.get((sev or "MEDIUM").upper(), SeverityEnum.MEDIUM)`
  pub to_severity_enum : String → Severity
  to_severity_enum s =
      if str_eq (py.upper s) "LOW"
      then low
      else if str_eq (py.upper s) "HIGH"
      then high
      else if str_eq (py.upper s) "CRITICAL"
      then critical
      else medium

  max_severity_from : String → List Alert → String
  max_severity_from best [] = best
  max_severity_from best (a ∷ rest) =
      max_severity_from
        (if ltb (severity_order best) (severity_order (severity_text a))
          then severity_text a
          else best)
        rest

  pub max_severity : List Alert → String
  unfolding max_severity_from
  max_severity = max_severity_from "LOW"

-- `a.device_id or "unknown"`
abbrev pub device_key : Alert → String
device_key a = let d = or_else a.device_id "" in if str_eq d "" then "unknown" else d

-- `by_device[…].append(a)`, in the order in which devices appear
pub group_by_device : Assoc (List Alert) → List Alert → Assoc (List Alert)
group_by_device groups [] = groups
group_by_device groups (a ∷ rest) =
    group_by_device
      (insert (device_key a) (or_else (lookup (device_key a) groups) [] ++ a ∷ []) groups) rest

abbrev is_linked : Incident → String → Alert → Bool
is_linked i device a =
    elim a.incident_id [ none ↦ false | some k ↦ k == i.id ]
    && elim a.device_id [ none ↦ false | some d ↦ str_eq d device ]

-- the `where` clause of the query, with its join
abbrev pub is_candidate : Db → ℕ → String → ℕ → Incident → Bool
is_candidate db tenant_id device since i =
    (i.tenant_id == tenant_id)
    && (is_open i.status && (leb since i.created_at && any_of (is_linked i device) db.alerts))

-- `ORDER BY created_at DESC LIMIT 1`
abbrev pub newest : Option Incident → List Incident → Option Incident
newest best [] = best
newest none (i ∷ rest) = newest (some i) rest
newest (some b) (i ∷ rest) = newest (some (if ltb b.created_at i.created_at then i else b)) rest

pub open_incident_for_device : Db → ℕ → String → ℕ → Option Incident
open_incident_for_device db tenant_id device since =
    newest none (keep (is_candidate db tenant_id device since) db.incidents)

abbrev pub add_incident : Db → ℕ → Severity → Incident × Db
add_incident db tenant_id severity =
    let i : Incident = record {
      id = db.next_id;
      tenant_id = tenant_id;
      severity = severity;
      status = open_status;
      verdict = "UNKNOWN";
      analyst_notes = none;
      created_at = db.now;
    } in
    (i, record db { incidents = db.incidents ++ i ∷ []; next_id = suc db.next_id })

abbrev pub link : List Alert → ℕ → Alert → Alert
link group k a = if any_of (λ g. g.id == a.id) group then record a { incident_id = some k } else a

-- `for a in group: a.incident_id = incident.id`
abbrev pub attach : List Alert → Incident → Db → Db
attach group i db = record db { alerts = map (link group i.id) db.alerts }

pub record Counts : Type 0 where
  pub incidents_created : ℕ
  pub incidents_attached : ℕ

abbrev counted : ℕ → List Alert → Counts → Counts
counted fresh group c = record {
  incidents_created = c.incidents_created + fresh;
  incidents_attached = c.incidents_attached + length group;
}

module _ (py : Python) (tenant_id : ℕ) where
  pub correlate_group : Db → Counts → String → List Alert → Counts × Db
  unfolding open_incident_for_device
  correlate_group db c device group =
      elim (open_incident_for_device db tenant_id device (db.now - correlation_window)) [
        | some i ↦ (counted 0 group c, attach group i db)
        | none ↦
            let (i, db₁) =
              add_incident db tenant_id (to_severity_enum py (max_severity py group)) in
            (counted 1 group c, attach group i db₁)
      ]

  pub correlate_groups : Db → Counts → Assoc (List Alert) → Counts × Db
  correlate_groups db c [] = (c, db)
  correlate_groups db c ((device, group) ∷ rest) =
      let (c₁, db₁) = correlate_group db c device group in correlate_groups db₁ c₁ rest

  pub correlate_new_alerts : Db → List Alert → Counts × Db
  unfolding group_by_device
  correlate_new_alerts db alerts =
      correlate_groups db (record { incidents_created = 0; incidents_attached = 0 })
        (group_by_device [] alerts)

abbrev pub find_alert : ℕ → List Alert → Option Alert
find_alert k [] = none
find_alert k (a ∷ rest) = if a.id == k then some a else find_alert k rest

abbrev pub find_incident : ℕ → List Incident → Option Incident
find_incident k [] = none
find_incident k (i ∷ rest) = if i.id == k then some i else find_incident k rest

abbrev existing_incident : Db → Option ℕ → Option Incident
existing_incident db none = none
existing_incident db (some k) = find_incident k db.incidents

-- `none` is the `ValueError` "alert not found".
pub promote_alert : Python → Db → ℕ → ℕ → Option (Incident × Db)
promote_alert py db tenant_id alert_id = elim (find_alert alert_id db.alerts) [
  | none ↦ none
  | some a ↦
      if not (a.tenant_id == tenant_id) then none else elim (existing_incident db a.incident_id) [
        | some i ↦ some (i, db)
        | none ↦
            let severity = to_severity_enum py (or_else a.severity "MEDIUM") in
            let (i, db₁) = add_incident db tenant_id severity in some (i, attach (a ∷ []) i db₁)
      ]
]
