-- ===== src/Tests/Incidents.antt =====
-- An analyst closes an incident as a true positive.
use ai_soc.Prelude.{none, some, [], ◌∷◌}
use ai_soc.Json.{Fields, text, field, end}
use ai_soc.Store.{Incident, open_status, high, Db}
use ai_soc.Incidents.{update_incident, set_verdict}
use ai_soc.Incidents.Scoped.{Told, Labelled, update_incident-Scoped}
use ai_soc.Tests.Data.{plain, store}

abbrev incident : Incident
incident = record {
  id = 5;
  tenant_id = 1;
  severity = high;
  status = open_status;
  verdict = "UNKNOWN";
  analyst_notes = none;
  created_at = 90000;
}

abbrev tables : Db
tables = record store { incidents = incident ∷ record incident { id = 6; tenant_id = 2 } ∷ [] }

abbrev body : Fields
body = field "status" (text "RESOLVED") (field "verdict" (text "TRUE_POSITIVE") end)

update_incident-Scoped_example :
    Told 1 5 tables
      (update_incident plain (some 1) 5 body tables).0
      (update_incident plain (some 1) 5 body tables).2
    × Labelled
        (update_incident plain (some 1) 5 body tables).0
        (update_incident plain (some 1) 5 body tables).1
    × Told 1 5 tables
        (set_verdict plain (some 1) 5 body tables).0
        (set_verdict plain (some 1) 5 body tables).1
update_incident-Scoped_example = update_incident-Scoped plain (some 1) 5 body tables
