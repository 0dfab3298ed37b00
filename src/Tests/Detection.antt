-- ===== src/Tests/Detection.antt =====
-- Detection at work on a batch of events.
use ai_soc.Prelude.{
  String, ◌≡◌, refl, sym, subst, ◌<◌, List, [], ◌∷◌, All, none, true, value, leb, join_with,
}
use mathlib.Core.List.{Memᴰ}
use ai_soc.Json.{text, int, pos, cons, nil, end, field, null, bool}
use ai_soc.Detection.Rules.{
  Finding, section, texts_of, rule_suspicious_cmdline, rule_persistence_change,
  rule_rare_outbound_port,
}
use ai_soc.Detection.Match.{match_rules, match_ioc_rules}
use ai_soc.Detection.Batch.{match_batch_rules, findings_of, is_failed_login}
use ai_soc.Detection.Batch.Threshold.{reports, failed_logins, match_batch_rules-exact}
use ai_soc.Detection.Correlate.{correlate_new_alerts}
use ai_soc.Detection.Correlate.Grouping.{has_id}
use ai_soc.Detection.Correlate.Linking.{Correlated}
use ai_soc.Detection.Correlate.Counting.{Accounts, correlate-Accounts}
use ai_soc.Detection.Scan.{
  Pass, rule_pass, event_pass, take_finding, take_findings, build_rule_alert,
}
use ai_soc.Detection.Scan.Fresh.{IsFresh, rule_pass-IsFresh}
use ai_soc.Detection.Scan.Faults.{HasBadCommandLine}
use ai_soc.Detection.Tenant.{events_since, max_observed, scan_tenant, raised_type_error}
use ai_soc.Detection.Tenant.Progress.{scans_disjoint}
use ai_soc.Detection.Tenant.Blocked.{scan_blocked}
use ai_soc.Tests.Data.{
  plain, store, c2_alert, failed_login, hashed_process, odd_process, c2_event, feed,
  first_watermark,
}

match_batch_rules-exact_example :
    (fs : List Finding) × (match_batch_rules plain (failed_login ∷ failed_login ∷ []) ≡ value fs)
    × ((d : String) → reports d fs ≡ leb 20 (failed_logins d (failed_login ∷ failed_login ∷ [])))
match_batch_rules-exact_example = match_batch_rules-exact plain (failed_login ∷ failed_login ∷ [])

correlate-Accounts_example :
    let out = correlate_new_alerts plain 1 store (c2_alert ∷ []) in
    Correlated 1 (has_id (c2_alert ∷ [])) store out.1
    × Accounts store out.1 (record { incidents_created = 0; incidents_attached = 0 }) out.0 1
correlate-Accounts_example = correlate-Accounts plain 1 store (c2_alert ∷ [])

scans_disjoint_example :
    let first = events_since 1 50000 (failed_login ∷ []) in
    let second = events_since 1 (max_observed 50000 first) (hashed_process ∷ failed_login ∷ []) in
    All (λ e. All (λ e'. (e'.tenant_id ≡ 1) × (e.observed_at < e'.observed_at)) second) first
scans_disjoint_example =
    scans_disjoint 1 50000 (failed_login ∷ []) (hashed_process ∷ failed_login ∷ [])

odd_process-HasBadCommandLine : HasBadCommandLine odd_process
unfolding section texts_of
odd_process-HasBadCommandLine = record {
  process = refl;
  parts = cons (text "run") (cons (int (pos 1)) nil);
  listed = refl;
  mixed = refl;
}

scanned_odd : events_since 1 50000 (odd_process ∷ []) ≡ odd_process ∷ []
unfolding events_since
scanned_odd = refl

scan_blocked_example :
    scan_tenant plain none 1 store (odd_process ∷ []) feed first_watermark none ≡ raised_type_error
scan_blocked_example =
    scan_blocked plain none 1 store (odd_process ∷ []) feed first_watermark odd_process
      (subst (Memᴰ odd_process) (sym scanned_odd) (Memᴰ.head refl)) odd_process-HasBadCommandLine

-- what the rule would report of the process
abbrev first_seen_finding : Finding
first_seen_finding = record {
  rule_id = "first-seen-binary";
  rule_name = "First-seen binary";
  severity = "MEDIUM";
  confidence = 50;
  fingerprint = "abc";
  evidence = end;
  device_id = "";
}

abbrev c2_print : String
c2_print = "known-c2-connection|laptop|203.0.113.9"

abbrev c2_finding : Finding
c2_finding = record {
  rule_id = "known-c2-connection";
  rule_name = "Connection to known C2 infrastructure";
  severity = "HIGH";
  confidence = 90;
  fingerprint = c2_print;
  evidence = field "dst_ip" (text "203.0.113.9") (
      field "dst_host" null (
        field "dst_port" null (
          field "matched_value" (text "203.0.113.9") (
            field "intel_classified_c2" (bool true)
              (field "intel_source" (text "threat-intel-feed") end)))));
  device_id = "";
}

-- the pass over two connections to the same address, which raises one alert
abbrev c2_pass : Pass
c2_pass = record {
  seen = c2_print ∷ [];
  drafts = build_rule_alert 1 (text "e1") "laptop" c2_finding ∷ [];
}

c2_run :
    rule_pass plain
      (λ f. true)
      none
      feed
      1
      (record { seen = []; drafts = [] })
      (c2_event ∷ c2_event ∷ [])
    ≡ value c2_pass
unfolding rule_pass event_pass take_findings take_finding match_rules match_ioc_rules
    match_batch_rules rule_suspicious_cmdline rule_persistence_change rule_rare_outbound_port
    section findings_of is_failed_login join_with
c2_run = refl

rule_pass-IsFresh_example : IsFresh [] c2_pass
rule_pass-IsFresh_example =
    rule_pass-IsFresh plain (λ f. true) none feed 1 [] c2_pass (c2_event ∷ c2_event ∷ []) c2_run
