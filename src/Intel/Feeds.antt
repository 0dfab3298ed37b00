-- ===== src/Intel/Feeds.antt =====
-- backend/app/intel/refresh.py: the refresh of all sources, and the sets that the detection reads
-- through a cache of ten minutes. An error is the text of its exception. Only the call of a feed fails
-- here: the `except Exception` of the loop also takes a failed merge or commit, after which changed
-- rows stay in the session, and that is not modelled.
use ai_soc.Prelude.{
  String, ℕ, ◌+◌, ◌-◌, Bool, false, not, ◌&&◌, ◌||◌, Option, none, some, List, [], ◌∷◌, map, str_eq,
  str_append, if◌then◌else◌, mem_str, keep, is_none, ltb,
}
use ai_soc.Prelude.Assoc.{Assoc, lookup, insert}
use ai_soc.Python.{Python}
use ai_soc.Detection.Match.{Intel}
use ai_soc.Intel.{Ioc, ThreatIntelIoc, Counts, no_counts, refresh_source}

-- What the call of a feed comes to: its entries, an `IntelSourceError`, or another exception.
pub data Fetched : Type 0 where
  feed : List Ioc → Fetched
  source_error : String → Fetched
  unexpected : String → Fetched

pub record Refresh : Type 0 where
  pub table : List ThreatIntelIoc
  -- when a set was cached, and the set
  pub c2_cache : Assoc (ℕ × List String)
  pub last_refresh : Assoc ℕ
  pub last_error : Assoc (Option String)

abbrev pub source_names : List String
source_names = "cisa-kev" ∷ "threatfox" ∷ "urlhaus" ∷ []

abbrev pub add_counts : Counts → Counts → Counts
add_counts a b = record {
  inserted = a.inserted + b.inserted;
  updated = a.updated + b.updated;
  deduped = a.deduped + b.deduped;
}

module _ (py : Python) (now : ℕ) (fetch : String → Fetched) where
  -- one round of the loop: the counts of a source that failed are zero
  unfoldable pub refresh_one : String → Fetched → Refresh → Counts × Refresh
  unfolding insert
  refresh_one name (feed iocs) s =
      let (counts, table) = refresh_source py now name iocs (s.table) in
      (
        counts,
        record {
          table = table;
          c2_cache = [];
          last_refresh = insert name now (s.last_refresh);
          last_error = insert name none (s.last_error);
        },
      )
  refresh_one name (source_error e) s =
      (no_counts, record s { last_error = insert name (some e) (s.last_error) })
  refresh_one name (unexpected e) s = (
    no_counts,
    record s { last_error = insert name (some (str_append "unexpected: " e)) (s.last_error) },
  )

  unfoldable pub refresh_names : List String → Refresh → Counts × Refresh
  refresh_names [] s = (no_counts, s)
  refresh_names (name ∷ names) s =
      let (counts, s') = refresh_one name (fetch name) s in
      let (totals, last) = refresh_names names s' in (add_counts counts totals, last)

  -- the totals, and what is left in the tables
  unfoldable pub refresh_all : Refresh → Counts × Refresh
  refresh_all s = refresh_names source_names s

abbrev pub c2_threat_types : List String
c2_threat_types = "botnet_cc" ∷ "c2" ∷ []

abbrev pub cache_ttl : ℕ
cache_ttl = 600

abbrev is_c2_type : Option String → Bool
is_c2_type none = false
is_c2_type (some t) = mem_str t c2_threat_types

abbrev pub is_c2 : String → ThreatIntelIoc → Bool
is_c2 ioc_type row =
    str_eq (row.ioc_type) ioc_type
    && (is_c2_type (row.threat_type) || not (is_none (row.malware_family)))

abbrev pub is_malicious : String → ThreatIntelIoc → Bool
is_malicious ioc_type row = str_eq (row.ioc_type) ioc_type

abbrev pub values_of : (ThreatIntelIoc → Bool) → List ThreatIntelIoc → List String
values_of p rows = keep (λ v. not (str_eq v "")) (map (λ row. row.value) (keep p rows))

-- `cached and now - cached[0] < ttl`
abbrev pub fresh_entry : ℕ → Option (ℕ × List String) → Option (List String)
fresh_entry now none = none
fresh_entry now (some (at, values)) = if ltb (now - at) cache_ttl then some values else none

unfoldable pub read_set :
    ℕ → String → (ThreatIntelIoc → Bool) → Option (List String) → Refresh → List String × Refresh
unfolding insert
read_set now key p (some values) s = (values, s)
read_set now key p none s =
    let values = values_of p (s.table) in
    (values, record s { c2_cache = insert key (now, values) (s.c2_cache) })

-- the answer, and the cache afterwards
unfoldable pub cached_set : ℕ → String → (ThreatIntelIoc → Bool) → Refresh → List String × Refresh
unfolding lookup read_set
cached_set now key p s = read_set now key p (fresh_entry now (lookup key (s.c2_cache))) s

-- the four sets that a scan reads, in its order
unfoldable pub read_intel : ℕ → Refresh → Intel × Refresh
unfolding cached_set
read_intel now s =
    let (c2_ips, s1) = cached_set now "c2_ips" (is_c2 "ip") s in
    let (c2_domains, s2) = cached_set now "c2_domains" (is_c2 "domain") s1 in
    let (malicious_ips, s3) = cached_set now "malicious_ips" (is_malicious "ip") s2 in
    let (malicious_domains, s4) = cached_set now "malicious_domains" (is_malicious "domain") s3 in
    (
      record {
        c2_ips = c2_ips;
        c2_domains = c2_domains;
        malicious_ips = malicious_ips;
        malicious_domains = malicious_domains;
      },
      s4,
    )
