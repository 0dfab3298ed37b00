-- ===== src/Intel/Known.antt =====
-- From a feed to a finding: the refresh of all sources, the sets that a scan reads and the rule on
-- known destinations (backend/app/intel/refresh.py and detection/rules.py).
use ai_soc.Prelude.{
  String, ℕ, ◌≡◌, refl, ap, ◌∙◌, inl, inr, Bool, true, false, none, some, List, [], ◌∷◌, str_eq,
  eq_iff, any_of, mem_str, Bool-cases, Option-cases, arith, value,
}
use ai_soc.Prelude.Assoc.{lookup, insert}
use ai_soc.Python.{Python}
use ai_soc.Store.{SecurityEvent}
use ai_soc.Detection.Rules.{Finding, fingerprint, texts_of}
use ai_soc.Detection.Match.{
  Intel, listed, verdict, destination_ip, destination_host, ioc_finding, match_ioc_rules,
}
use ai_soc.Intel.{Ioc, ThreatIntelIoc, same_ioc, value_of}
use ai_soc.Intel.Refresh.{names}
use ai_soc.Intel.Feeds.{
  Fetched, feed, source_error, unexpected, Refresh, source_names, refresh_one, refresh_names,
  refresh_all, values_of, is_malicious, cached_set, read_set, read_intel,
}
use ai_soc.Intel.Isolation.{refresh_all-isolates}

mem_str-values_of :
    (source t v : String) (rows : List ThreatIntelIoc)
    → str_eq v "" ≡ false
    → any_of (same_ioc source t v) rows ≡ true
    → mem_str v (values_of (is_malicious t) rows) ≡ true
mem_str-values_of source t v [] f h = ground (arith, h)
mem_str-values_of source t v (row ∷ rows) f h = elim (Bool-cases (same_ioc source t v row)) [
  | inl here ↦ ground (arith, here, f, eq_iff (row.value) v)
  | inr other ↦ ground (arith, mem_str-values_of source t v rows f, h, other)
]

module _ (py : Python) (now : ℕ) (fetch : String → Fetched) where
  one_empty :
      (name : String) (f : Fetched) (s : Refresh)
      → s.c2_cache ≡ []
      → (refresh_one py now fetch name f s).1.c2_cache ≡ []
  unfolding refresh_one
  one_empty name (feed iocs) s h = refl
  one_empty name (source_error e) s h = h
  one_empty name (unexpected e) s h = h

  stays_empty :
      (ns : List String) (s : Refresh)
      → s.c2_cache ≡ []
      → (refresh_names py now fetch ns s).1.c2_cache ≡ []
  unfolding refresh_names
  stays_empty [] s h = h
  stays_empty (name ∷ ns) s h = stays_empty ns _ (one_empty name (fetch name) s h)

  -- A source that answers drops the cache.
  dropped :
      (source : String) (iocs : List Ioc) (ns : List String) (s : Refresh)
      → fetch source ≡ feed iocs
      → mem_str source ns ≡ true
      → (refresh_names py now fetch ns s).1.c2_cache ≡ []
  unfolding refresh_names refresh_one
  dropped source iocs [] s e h = ground (arith, h)
  dropped source iocs (name ∷ ns) s e h = elim (Bool-cases (str_eq name source)) [
    | inl here ↦
        let same : fetch name ≡ feed iocs = ap fetch ((eq_iff name source).0 here) ∙ e in
        rw same (stays_empty ns _ refl)
    | inr other ↦ dropped source iocs ns _ e (ground (arith, h, other))
  ]

any_names :
    (py : Python) (source : String) (now : ℕ) (v : String) (iocs : List Ioc)
    → any_of (names py source now "ip" v) iocs ≡ true
    → str_eq v "" ≡ false
any_names py source now v [] h = ground (arith, h)
any_names py source now v (ioc ∷ iocs) h = elim (Bool-cases (names py source now "ip" v ioc)) [
  | inl here ↦ ground (arith, here, eq_iff (value_of py source now ioc) v)
  | inr other ↦ any_names py source now v iocs (ground (arith, h, other))
]

read_intel-fresh :
    (now : ℕ) (s : Refresh)
    → s.c2_cache ≡ []
    → (read_intel now s).0.malicious_ips ≡ values_of (is_malicious "ip") (s.table)
unfolding read_intel cached_set read_set lookup insert
read_intel-fresh now s h = rw h refl

module _ (py : Python) where
  -- a hit of the feed comes with one finding
  ioc_finding_one :
      (ev : SecurityEvent) (hit : Bool × String)
      → (f : Finding) × (ioc_finding py ev (some hit) ≡ value (f ∷ []))
  unfolding ioc_finding fingerprint texts_of
  ioc_finding_one ev (c2, matched) = (_, refl)

  listed_hits :
      (intel : Intel) (ip host : String)
      → listed ip intel.malicious_ips ≡ true
      → (hit : Bool × String) × (verdict intel ip host ≡ some hit)
  listed_hits intel ip host h = elim (Option-cases (verdict intel ip host)) [
    | inl missed ↦ elim (missed_not missed) [ ]
    | inr hit ↦ hit
  ]
    where
      missed_not : verdict intel ip host ≡ none → ⊥
      missed_not e = ground (arith, e, h)

  match_ioc_rules_one :
      (intel : Intel) (ev : SecurityEvent)
      → ev.event_type ≡ "network"
      → listed (destination_ip py ev) intel.malicious_ips ≡ true
      → (f : Finding) × (match_ioc_rules py intel ev ≡ value (f ∷ []))
  unfolding match_ioc_rules
  match_ioc_rules_one intel ev network h =
      let (hit, e) = listed_hits intel (destination_ip py ev) (destination_host py ev) h in
      let (f, found) = ioc_finding_one ev hit in (f, ioc_rule ∙ ap (ioc_finding py ev) e ∙ found)
    where
      is_network : str_eq ev.event_type "network" ≡ true
      is_network = (eq_iff ev.event_type "network").1 network

      ioc_rule :
          match_ioc_rules py intel ev
          ≡ ioc_finding py ev (verdict intel (destination_ip py ev) (destination_host py ev))
      ioc_rule = rw is_network refl

  -- Once a refresh in which a feed answered is over, a scan reports every connection to an address
  -- that is a valid entry of that feed, whatever became of the other feeds and of the cache before.
  pub refresh_all-reports :
      (now later : ℕ) (fetch : String → Fetched) (s : Refresh) (source v : String) (iocs : List Ioc)
      (ev : SecurityEvent)
      → mem_str source source_names ≡ true
      → fetch source ≡ feed iocs
      → any_of (names py source now "ip" v) iocs ≡ true
      → ev.event_type ≡ "network"
      → destination_ip py ev ≡ v
      → (f : Finding) × (match_ioc_rules py (read_intel later (refresh_all py now fetch s).1).0 ev
          ≡ value (f ∷ []))
  unfolding refresh_all
  refresh_all-reports now later fetch s source v iocs ev known answers entry network to =
      let last = (refresh_all py now fetch s).1 in
      let empty = dropped py now fetch source iocs source_names s answers known in
      let says = (refresh_all-isolates py now fetch source s known).1 in
      let fresh = read_intel-fresh later last empty in
      let filled : str_eq v "" ≡ false = any_names py source now v iocs entry in
      let there : any_of (same_ioc source "ip" v) (last.table) ≡ true =
        says.present "ip" v ∙ rw answers (rw entry (ground arith)) in
      match_ioc_rules_one (read_intel later last).0 ev network
        (rw (to, filled, fresh) (mem_str-values_of source "ip" v (last.table) filled there))
