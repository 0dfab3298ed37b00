-- ===== src/Intel.antt =====
-- backend/app/intel/refresh.py: the refresh of the indicators of compromise. The feeds are HTTP calls
-- of intel/sources.py and inputs here, and a time is an instant, whatever its zone.
pub mod Rows
pub mod Merge
pub mod Steps
pub mod Refresh
pub mod Feeds
pub mod Isolation
pub mod Known
use ai_soc.Prelude.{
  String, ℕ, suc, ◌+◌, Bool, true, false, not, ◌&&◌, ◌||◌, Option, none, some, List, [], ◌∷◌, ◌++◌,
  map, str_eq, if◌then◌else◌, any_of, ltb, or_else, length,
}
use ai_soc.Json.{Value, truthy}
use ai_soc.Python.{Python}

-- an entry of a feed
pub record Ioc : Type 0 where
  pub ioc_type : String
  pub value : Option String
  pub threat_type : Option String
  pub malware_family : Option String
  pub first_seen : Option ℕ
  pub last_seen : Option ℕ
  pub raw : Value

-- A row; the table has one row at most for a source, a type and a value.
pub record ThreatIntelIoc : Type 0 where
  pub source : String
  pub ioc_type : String
  pub value : String
  pub threat_type : Option String
  pub malware_family : Option String
  pub first_seen : Option ℕ
  pub last_seen : Option ℕ
  pub raw : Value

pub record Counts : Type 0 where
  pub inserted : ℕ
  pub updated : ℕ
  pub deduped : ℕ

-- the rows that are there, those that will be added, and the counts
pub record MergeState : Type 0 where
  pub table : List ThreatIntelIoc
  pub pending_new : List ThreatIntelIoc
  pub counts : Counts

abbrev pub text_size : String → ℕ
text_size String.[] = 0
text_size (String.◌∷◌ c s) = suc (text_size s)

abbrev pub max_value : ℕ
max_value = 1024

abbrev pub same_ioc : String → String → String → ThreatIntelIoc → Bool
same_ioc source ioc_type value row =
    str_eq (row.source) source && str_eq (row.ioc_type) ioc_type && str_eq (row.value) value

-- `new or old`, where an empty text is no text
abbrev pub improved : Option String → Option String → Option String
improved none old = old
improved (some s) old = if str_eq s "" then old else some s

-- the earlier of a new sighting and the one that is known
abbrev pub earliest : Option ℕ → Option ℕ → Option ℕ
earliest none old = old
earliest (some t) none = some t
earliest (some t) (some u) = if ltb t u then some t else some u

-- what happens to each row that a test picks
unfoldable pub change_where :
    (ThreatIntelIoc → Bool)
    → (ThreatIntelIoc → ThreatIntelIoc)
    → List ThreatIntelIoc
    → List ThreatIntelIoc
change_where p f [] = []
change_where p f (row ∷ rows) =
    let rest = change_where p f rows in if p row then f row ∷ rest else row ∷ rest

-- a re-sighting of a row that is there
unfoldable pub resight : ℕ → Ioc → ThreatIntelIoc → ThreatIntelIoc
resight now ioc row = record row {
  last_seen = some now;
  threat_type = improved (ioc.threat_type) (row.threat_type);
  malware_family = improved (ioc.malware_family) (row.malware_family);
  first_seen = earliest (ioc.first_seen) (row.first_seen);
  raw = if truthy (ioc.raw) then ioc.raw else row.raw;
}

unfoldable pub merge_pending : Ioc → ThreatIntelIoc → ThreatIntelIoc
merge_pending ioc row = record row { first_seen = earliest (ioc.first_seen) (row.first_seen) }

unfoldable pub new_row : String → ℕ → String → Ioc → ThreatIntelIoc
new_row source now value ioc = record {
  source = source;
  ioc_type = ioc.ioc_type;
  value = value;
  threat_type = ioc.threat_type;
  malware_family = ioc.malware_family;
  first_seen = ioc.first_seen;
  last_seen = some (or_else (ioc.last_seen) now);
  raw = ioc.raw;
}

module _ (py : Python) (source : String) (now : ℕ) where
  abbrev pub value_of : Ioc → String
  value_of ioc = py.strip (or_else (ioc.value) "")

  -- an empty value and one that is too long for the column are skipped
  abbrev pub is_valid : Ioc → Bool
  is_valid ioc = not (str_eq (value_of ioc) "") && not (ltb max_value (text_size (value_of ioc)))

  unfoldable pub add_pending : Ioc → MergeState → MergeState
  unfolding change_where merge_pending new_row
  add_pending ioc m =
      let same = same_ioc source (ioc.ioc_type) (value_of ioc) in
      if any_of same (m.pending_new)
      then record m {
        pending_new = change_where same (merge_pending ioc) (m.pending_new);
        counts = record (m.counts) { deduped = suc (m.counts.deduped) };
      }
      else record m {
        pending_new = m.pending_new ++ new_row source now (value_of ioc) ioc ∷ [];
        counts = record (m.counts) { inserted = suc (m.counts.inserted) };
      }

  unfoldable pub merge_valid : Ioc → MergeState → MergeState
  unfolding add_pending resight
  merge_valid ioc m =
      let same = same_ioc source (ioc.ioc_type) (value_of ioc) in
      if any_of same (m.table)
      then record m {
        table = change_where same (resight now ioc) (m.table);
        counts = record (m.counts) { updated = suc (m.counts.updated) };
      }
      else add_pending ioc m

  unfoldable pub merge_ioc : Ioc → MergeState → MergeState
  unfolding merge_valid
  merge_ioc ioc m = if is_valid ioc then merge_valid ioc m else m

  unfoldable pub merge_iocs : List Ioc → MergeState → MergeState
  merge_iocs [] m = m
  merge_iocs (ioc ∷ iocs) m = merge_iocs iocs (merge_ioc ioc m)

abbrev pub no_counts : Counts
no_counts = record { inserted = 0; updated = 0; deduped = 0 }

module _ (py : Python) (now : ℕ) where
  -- the table after the commit, and the answer
  unfoldable pub refresh_source :
      String → List Ioc → List ThreatIntelIoc → Counts × List ThreatIntelIoc
  unfolding merge_iocs
  refresh_source source iocs table =
      let m =
        merge_iocs py source now iocs
          (record { table = table; pending_new = []; counts = no_counts }) in
      (m.counts, m.table ++ m.pending_new)
