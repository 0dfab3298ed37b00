-- ===== src/Detection/Match.antt =====
-- backend/app/detection/rules.py: the first-seen rule, all rules over one event, and the
-- threat-intel rules.
use ai_soc.Prelude.{
  ℕ, zero, suc, String, Bool, true, false, not, ◌&&◌, ◌||◌, Option, none, some, List, [], ◌∷◌,
  if◌then◌else◌, str_eq, mem_str, Attempt, value, type_error, ◌>>=◌,
}
use ai_soc.Json.{
  Value, null, bool, text, arr, obj, Items, nil, cons, end, field, get, or_value, truthy,
}
use ai_soc.Python.{Python}
use ai_soc.Store.{SecurityEvent}
use ai_soc.Detection.Rules.{
  Finding, section, fingerprint, clip, rule_suspicious_cmdline, rule_persistence_change,
  rule_rare_outbound_port,
}

abbrev pub take_items : ℕ → Items → Items
take_items zero xs = nil
take_items (suc n) nil = nil
take_items (suc n) (cons x xs) = cons x (take_items n xs)

-- `(cmdline or [])[:10]`: a slice of a list or a text; anything else raises.
abbrev pub first_ten : Value → Attempt Value
first_ten (arr xs) = value (arr (take_items 10 xs))
first_ten (text s) = value (text (clip 10 s))
first_ten _ = type_error

-- `h in known_hashes` for a text, or a value that no hash is equal to; a list or a dictionary
-- cannot be hashed.
abbrev pub is_known_hash : Value → List String → Attempt Bool
is_known_hash (text s) known = value (mem_str s known)
is_known_hash (arr xs) known = type_error
is_known_hash (obj fs) known = type_error
is_known_hash _ known = value false

module _ (py : Python) where
  first_seen_hit : SecurityEvent → Value → Attempt (Option Finding)
  first_seen_hit ev h = do
    let proc = section ev
    fp ← fingerprint py (text "first-seen-binary" ∷ text ev.device_id ∷ h ∷ [])
    head ← first_ten (or_value (get "cmdline" proc) (arr nil))
    value (
        some (record {
          rule_id = "first-seen-binary";
          rule_name = "First-seen binary executed";
          severity = "LOW";
          confidence = 40;
          fingerprint = fp;
          evidence =
              field "name" (or_value (get "name" proc) (text "unknown"))
                (field "exe" (get "exe" proc) (field "hash_sha256" h (field "cmdline" head end)));
          device_id = "";
        }))

  unfoldable pub rule_first_seen_binary : List String → SecurityEvent → Attempt (Option Finding)
  unfolding first_seen_hit
  rule_first_seen_binary known ev =
      let h = get "hash_sha256" (section ev) in
      if not (str_eq ev.event_type "process")
      then value none
      else if not (truthy h)
      then value none
      else do seen ← is_known_hash h known; if seen then value none else first_seen_hit ev h

  abbrev pub with_hit : Option Finding → List Finding → List Finding
  with_hit none fs = fs
  with_hit (some f) fs = f ∷ fs

  -- `known_hashes=None` switches the first-seen rule off.
  abbrev pub first_seen_of : Option (List String) → SecurityEvent → Attempt (Option Finding)
  first_seen_of none ev = value none
  first_seen_of (some known) ev = rule_first_seen_binary known ev

  unfoldable pub match_rules : Option (List String) → SecurityEvent → Attempt (List Finding)
  match_rules known ev = do
    a ← rule_suspicious_cmdline py ev
    b ← rule_persistence_change py ev
    c ← rule_rare_outbound_port py ev
    d ← first_seen_of known ev
    value (with_hit a (with_hit b (with_hit c (with_hit d []))))

-- the sets of the intel feed
pub record Intel : Type 0 where
  pub c2_ips : List String
  pub c2_domains : List String
  pub malicious_ips : List String
  pub malicious_domains : List String

-- `x in s if x else False`
abbrev pub listed : String → List String → Bool
listed x s = not (str_eq x "") && mem_str x s

-- whether a hit is command and control, and the value that matched
abbrev pub verdict : Intel → String → String → Option (Bool × String)
verdict intel ip host =
    if listed ip intel.c2_ips || listed host intel.c2_domains
    then some (true, if listed ip intel.c2_ips then ip else host)
    else if listed ip intel.malicious_ips || listed host intel.malicious_domains
    then some (false, if listed ip intel.malicious_ips then ip else host)
    else none

abbrev text_or_null : String → Value
text_or_null s = if str_eq s "" then null else text s

module _ (py : Python) where
  unfoldable pub destination_ip : SecurityEvent → String
  destination_ip ev = py.strip (py.str (or_value (get "dst_ip" (section ev)) (text "")))

  pub destination_host : SecurityEvent → String
  destination_host ev = py.lower (
      py.strip (
        py.str
          (or_value (or_value (get "dst_host" (section ev)) (get "host" (section ev))) (text ""))))

  unfoldable pub ioc_finding : SecurityEvent → Option (Bool × String) → Attempt (List Finding)
  unfolding destination_ip destination_host
  ioc_finding ev none = value []
  ioc_finding ev (some (is_c2, matched)) = do
    let rule_id = if is_c2 then "known-c2-connection" else "known-malicious-connection"
    fp ← fingerprint py (text rule_id ∷ text ev.device_id ∷ text matched ∷ [])
    value (
        record {
          rule_id = rule_id;
          rule_name =
              if is_c2
              then "Connection to known C2 infrastructure"
              else "Connection to known-malicious infrastructure";
          severity = "HIGH";
          confidence = if is_c2 then 90 else 80;
          fingerprint = fp;
          evidence = field "dst_ip" (text_or_null (destination_ip ev)) (
              field "dst_host" (text_or_null (destination_host ev)) (
                field "dst_port" (get "dst_port" (section ev)) (
                  field "matched_value" (text matched) (
                    field "intel_classified_c2" (bool is_c2)
                      (field "intel_source" (text "threat-intel-feed") end)))));
          device_id = "";
        }
        ∷ [])

  unfoldable pub match_ioc_rules : Intel → SecurityEvent → Attempt (List Finding)
  unfolding ioc_finding
  match_ioc_rules intel ev =
      if not (str_eq ev.event_type "network")
      then value []
      else ioc_finding ev (verdict intel (destination_ip ev) (destination_host ev))
