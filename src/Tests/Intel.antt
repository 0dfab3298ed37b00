-- ===== src/Tests/Intel.antt =====
-- A refresh of the feeds in which one source fails.
use ai_soc.Prelude.{String, ◌≡◌, refl, none, some, [], ◌∷◌, str_eq, if◌then◌else◌, value}
use ai_soc.Json.{null}
use ai_soc.Detection.Rules.{Finding, section}
use ai_soc.Detection.Match.{match_ioc_rules, destination_ip}
use ai_soc.Intel.{Ioc, ThreatIntelIoc, refresh_source, no_counts}
use ai_soc.Intel.Refresh.{Merged, refresh_source-Merged}
use ai_soc.Intel.Feeds.{Fetched, feed, source_error, Refresh, refresh_all, read_intel}
use ai_soc.Intel.Isolation.{Turn, Says, refresh_all-isolates}
use ai_soc.Intel.Known.{refresh_all-reports}
use ai_soc.Tests.Data.{plain, c2_event}

abbrev c2_ip : Ioc
c2_ip = record {
  ioc_type = "ip";
  value = some "203.0.113.9";
  threat_type = some "botnet_cc";
  malware_family = none;
  first_seen = some 50;
  last_seen = none;
  raw = null;
}

abbrev earlier_ip : Ioc
earlier_ip = record c2_ip { first_seen = some 40 }

abbrev known_row : ThreatIntelIoc
known_row = record {
  source = "urlhaus";
  ioc_type = "url";
  value = "http://bad.example/x";
  threat_type = none;
  malware_family = none;
  first_seen = none;
  last_seen = some 10;
  raw = null;
}

refresh_source-Merged_example :
    Merged plain "threatfox" 100
      (c2_ip ∷ earlier_ip ∷ [])
      (known_row ∷ [])
      no_counts
      (refresh_source plain 100 "threatfox" (c2_ip ∷ earlier_ip ∷ []) (known_row ∷ [])).1
      (refresh_source plain 100 "threatfox" (c2_ip ∷ earlier_ip ∷ []) (known_row ∷ [])).0
refresh_source-Merged_example =
    refresh_source-Merged plain "threatfox" 100 (c2_ip ∷ earlier_ip ∷ []) (known_row ∷ [])

abbrev fetch : String → Fetched
fetch name =
    if str_eq name "threatfox" then feed (c2_ip ∷ earlier_ip ∷ []) else source_error "timed out"

abbrev start : Refresh
start = record {
  table = known_row ∷ [];
  c2_cache = ("malicious_ips", (90, [])) ∷ [];
  last_refresh = [];
  last_error = [];
}

refresh_all-isolates_example :
    Turn plain 100 fetch "urlhaus"
      (fetch "urlhaus")
      (start.table)
      ((refresh_all plain 100 fetch start).1.table)
    × Says plain 100 fetch "urlhaus" [] (start.table) ((refresh_all plain 100 fetch start).1.table)
refresh_all-isolates_example = refresh_all-isolates plain 100 fetch "urlhaus" start refl

refresh_all-reports_example :
    (f : Finding) × (match_ioc_rules plain
        (read_intel 120 (refresh_all plain 100 fetch start).1).0
        c2_event
      ≡ value (f ∷ []))
unfolding section destination_ip
refresh_all-reports_example =
    refresh_all-reports plain 100 120 fetch start "threatfox" "203.0.113.9"
      (c2_ip ∷ earlier_ip ∷ []) c2_event refl refl refl refl refl
