-- ===== src/Detection/Realtime.antt =====
-- backend/app/detection/realtime.py: the batch that was just ingested is scored by the cheap rules,
-- and its alerts go through the response policy and into incidents at once.
use ai_soc.Prelude.{
  ℕ, ◌-◌, String, Bool, none, List, [], ◌∷◌, Attempt, value, type_error, take, mem_str,
}
use ai_soc.Python.{Python}
use ai_soc.Store.{Alert, SecurityEvent, Db}
use ai_soc.Response.Policy.{evaluate}
use ai_soc.Detection.Rules.{Finding}
use ai_soc.Detection.Match.{Intel}
use ai_soc.Detection.Correlate.{correlate_new_alerts}
use ai_soc.Detection.Scan.{dedup_window, recent_fingerprints, Pass, rule_pass, flush}

abbrev pub realtime_severities : List String
realtime_severities = "HIGH" ∷ "CRITICAL" ∷ []

abbrev pub max_batch_events : ℕ
max_batch_events = 200

abbrev pub is_realtime : Finding → Bool
is_realtime f = mem_str f.severity realtime_severities

module _ (py : Python) where
  -- `for alert in new_alerts: await evaluate_response_policy(db, alert)`
  pub evaluate_all : Db → List Alert → Db
  evaluate_all db [] = db
  evaluate_all db (a ∷ rest) = evaluate_all (evaluate py db a).1 rest

  -- `if not new_alerts: return []`, and else flush, respond and correlate
  pub settle : ℕ → Db → List Alert → List Alert × Db
  unfolding evaluate_all
  settle tenant_id db [] = ([], db)
  settle tenant_id db (a ∷ rest) =
      let (rows, db₁) = flush db (a ∷ rest) in
      (rows, (correlate_new_alerts py tenant_id (evaluate_all db₁ rows) rows).1)

  settle_pass : ℕ → Db → Attempt Pass → Attempt (List Alert × Db)
  unfolding settle
  settle_pass tenant_id db type_error = type_error
  settle_pass tenant_id db (value p) = value (settle tenant_id db p.drafts)

  -- `_score`: an empty batch returns at once, as does one without alerts.
  pub score : Db → ℕ → Intel → List SecurityEvent → Attempt (List Alert × Db)
  unfolding settle_pass
  score db tenant_id intel events =
      let seen = recent_fingerprints db tenant_id (db.now - dedup_window) in
      settle_pass tenant_id db (
        rule_pass py is_realtime none intel tenant_id (record { seen = seen; drafts = [] })
          (take max_batch_events events))
