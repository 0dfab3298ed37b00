-- ===== src/Incidents.antt =====
-- backend/app/api/v1/incidents.py: an analyst reads an incident, changes it and gives a verdict. The
-- recording of feedback that a change starts is its verdict, and the scores of the models are left
-- out.
pub mod Scoped
use ai_soc.Prelude.{
  String, ℕ, zero, suc, ◌+◌, ◌*◌, Bool, true, false, not, ◌&&◌, ◌||◌, Option, none, some, List, [],
  ◌∷◌, ◌==◌, str_eq, if◌then◌else◌, keep, length, ltb, leb, mem_str, map,
}
use ai_soc.Json.{Value, null, text, Fields, get, has, truthy}
use ai_soc.Python.{Python}
use ai_soc.Store.{
  Alert, Incident, IncidentStatus, open_status, in_progress, resolved, closed, Severity, low,
  medium, high, critical, Db,
}
use ai_soc.Detection.Rules.{clip}

-- The answers: 404, 400, or the incident as it is then.
pub data Answer : Type 0 where
  not_found bad_request : Answer
  success : Incident → Answer

-- `current_tenant_id.get() or 1`
abbrev pub tenant_or_first : Option ℕ → ℕ
tenant_or_first none = 1
tenant_or_first (some zero) = 1
tenant_or_first (some (suc n)) = suc n

abbrev pub is_visible : ℕ → ℕ → Incident → Bool
is_visible tenant_id id i = (i.id == id) && (i.tenant_id == tenant_id)

abbrev pub find_visible : ℕ → ℕ → List Incident → Option Incident
find_visible tenant_id id [] = none
find_visible tenant_id id (i ∷ rest) =
    if is_visible tenant_id id i then some i else find_visible tenant_id id rest

unfoldable pub get_incidents : Option ℕ → Db → List Incident
get_incidents tenant db = keep (λ i. i.tenant_id == tenant_or_first tenant) db.incidents

-- the row with an id, of which there is one, takes a new value
unfoldable pub write_incident : ℕ → ℕ → (Incident → Incident) → List Incident → List Incident
write_incident tenant_id id f [] = []
write_incident tenant_id id f (i ∷ rest) =
    let others = write_incident tenant_id id f rest in
    if is_visible tenant_id id i then f i ∷ others else i ∷ others

-- `StatusEnum(s)`, where `none` stands for the `ValueError`
abbrev pub status_enum : String → Option IncidentStatus
status_enum s =
    if str_eq s "OPEN"
    then some open_status
    else if str_eq s "IN_PROGRESS"
    then some in_progress
    else if str_eq s "RESOLVED"
    then some resolved
    else if str_eq s "CLOSED"
    then some closed
    else none

abbrev pub is_over : IncidentStatus → Bool
is_over resolved = true
is_over closed = true
is_over _ = false

abbrev pub labels : List String
labels = "TRUE_POSITIVE" ∷ "FALSE_POSITIVE" ∷ []

module _ (py : Python) where
  abbrev pub verdict_text : Value → String
  verdict_text v = clip 50 (py.upper (py.str v))

  -- the status that the body asks for: none, or one that may not exist
  abbrev pub status_of : Value → IncidentStatus → Option IncidentStatus
  status_of v old = if truthy v then status_enum (py.upper (py.str v)) else some old

  abbrev pub verdict_of : Value → String → String
  verdict_of null old = old
  verdict_of v old = verdict_text v

  abbrev pub notes_of : Value → Option String → Option String
  notes_of null old = old
  notes_of v old = some (py.str v)

  unfoldable pub updated : Fields → IncidentStatus → Incident → Incident
  updated body status i = record i {
    status = status;
    verdict = verdict_of (get "verdict" body) (i.verdict);
    analyst_notes = notes_of (get "analyst_notes" body) (i.analyst_notes);
  }

  -- the label with which the incident becomes training data
  unfoldable pub feedback_of : Incident → Option String
  feedback_of i =
      if is_over (i.status) && mem_str (py.upper (i.verdict)) labels
      then some (py.upper (i.verdict))
      else none

  abbrev pub write_update :
      ℕ → ℕ → Fields → Incident → Option IncidentStatus → Db → Answer × Option String × Db
  unfolding updated feedback_of write_incident
  write_update tenant_id id body i none db = (bad_request, none, db)
  write_update tenant_id id body i (some status) db = (
    success (updated body status i),
    feedback_of (updated body status i),
    record db { incidents = write_incident tenant_id id (updated body status) db.incidents },
  )

  unfoldable pub update_found : ℕ → ℕ → Fields → Option Incident → Db → Answer × Option String × Db
  unfolding write_update
  update_found tenant_id id body none db = (not_found, none, db)
  update_found tenant_id id body (some i) db =
      write_update tenant_id id body i (status_of (get "status" body) (i.status)) db

  -- the answer, the label that is recorded, and the tables
  unfoldable pub update_incident : Option ℕ → ℕ → Fields → Db → Answer × Option String × Db
  unfolding update_found
  update_incident tenant id body db =
      let tenant_id = tenant_or_first tenant in
      update_found tenant_id id body (find_visible tenant_id id db.incidents) db

  unfoldable pub with_verdict : Fields → Incident → Incident
  with_verdict body i = record i {
    verdict = verdict_text (if has "verdict" body then get "verdict" body else text "UNKNOWN");
    analyst_notes =
        if truthy (get "notes" body) then some (py.str (get "notes" body)) else i.analyst_notes;
  }

  unfoldable pub verdict_found : ℕ → ℕ → Fields → Option Incident → Db → Answer × Db
  unfolding with_verdict write_incident
  verdict_found tenant_id id body none db = (not_found, db)
  verdict_found tenant_id id body (some i) db = (
    success (with_verdict body i),
    record db { incidents = write_incident tenant_id id (with_verdict body) db.incidents },
  )

  unfoldable pub set_verdict : Option ℕ → ℕ → Fields → Db → Answer × Db
  unfolding verdict_found
  set_verdict tenant id body db =
      let tenant_id = tenant_or_first tenant in
      verdict_found tenant_id id body (find_visible tenant_id id db.incidents) db

abbrev pub base_score : Severity → ℕ
base_score critical = 85
base_score high = 70
base_score medium = 50
base_score low = 30

abbrev minimum : ℕ → ℕ → ℕ
minimum a b = if leb a b then a else b

unfoldable pub risk_score : Severity → ℕ → ℕ
risk_score severity alert_count = minimum 99 (base_score severity + minimum (alert_count * 3) 14)

unfoldable pub risk_level : ℕ → String
risk_level score =
    if leb 85 score
    then "Critical"
    else if leb 65 score
    then "High"
    else if leb 40 score
    then "Medium"
    else "Low"

abbrev is_alert_of : ℕ → Alert → Bool
is_alert_of id a = elim (a.incident_id) [ none ↦ false | some k ↦ k == id ]

-- the level and the score, or 404
unfoldable pub predict_risk : Option ℕ → ℕ → Db → Option (String × ℕ)
unfolding risk_score risk_level
predict_risk tenant id db = elim (find_visible (tenant_or_first tenant) id db.incidents) [
  | none ↦ none
  | some i ↦
      let score = risk_score (i.severity) (length (keep (is_alert_of id) db.alerts)) in
      some (risk_level score, score)
]
