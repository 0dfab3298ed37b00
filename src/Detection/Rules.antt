-- ===== src/Detection/Rules.antt =====
-- backend/app/detection/rules.py: the rules over one event. The payload of an event is whatever
-- JSON object the sensor sent, so an operation on a value of another type may raise `TypeError`.
use ai_soc.Prelude.{
  ℕ, zero, suc, String, Bool, true, false, not, ◌||◌, Option, none, some, List, [], ◌∷◌,
  if◌then◌else◌, str_eq, mem_str, any_of, join_with, is_infix, Attempt, value, type_error, ◌>>=◌,
  ◌==◌,
}
use ai_soc.Json.{
  ℤ, pos, negsuc, Value, int, text, arr, obj, nil, Fields, end, field, get, or_value, fields_of,
  items_of,
}
use ai_soc.Python.{Python}
use ai_soc.Store.{SecurityEvent}

pub record Finding : Type 0 where
  pub rule_id : String
  pub rule_name : String
  pub severity : String
  pub confidence : ℕ
  pub fingerprint : String
  pub evidence : Fields
  -- only the batch rules set it
  pub device_id : String

abbrev pub section_types : List String
section_types = "process" ∷ "network" ∷ "file" ∷ "auth" ∷ "dns" ∷ []

-- The typed section: the payload itself, or nested under its type.
abbrev nested_or : Value → Fields → Fields
nested_or (obj fs) p = fs
nested_or _ p = p

unfoldable pub section : SecurityEvent → Fields
section ev =
    let p = fields_of ev.payload in
    if mem_str ev.event_type section_types then nested_or (get ev.event_type p) p else p

-- `"|".join(parts)` raises unless all parts are texts.
unfoldable pub texts_of : List Value → Attempt (List String)
texts_of [] = value []
texts_of (text s ∷ vs) = do rest ← texts_of vs; value (s ∷ rest)
texts_of (_ ∷ vs) = type_error

-- the first `n` characters
abbrev pub clip : ℕ → String → String
clip zero s = ""
clip (suc n) String.[] = ""
clip (suc n) (String.◌∷◌ c s) = String.◌∷◌ c (clip n s)

abbrev pub suspicious_cmdline : List (String × String)
suspicious_cmdline =
    (
      "powershell.*-(e(nc(odedcommand)?)?|w\\s+hidden|noprofile)",
      "PowerShell with encoded command or hidden window",
    )
    ∷ ("\\bmimikatz\\b", "Mimikatz credential dumper")
    ∷ ("\\bpsexec\\b", "PsExec remote execution tool")
    ∷ ("wmic\\s+.*process\\s+call\\s+create", "WMIC remote process creation")
    ∷ ("vssadmin\\s+delete\\s+shadows", "Volume shadow copy deletion (ransomware behavior)")
    ∷ ("bcdedit.*recoveryenabled\\s+no", "Boot recovery disabled")
    ∷ ("ntdsutil", "NTDS database access attempt")
    ∷ (
      "reg\\s+save\\s+hklm\\\\(sam|system|security)",
      "Registry hive exfiltration (SAM/SYSTEM/SECURITY)",
    )
    ∷ ("certutil\\s+.*-decode", "CertUtil used to decode a payload (living-off-the-land)")
    ∷ ("bitsadmin\\s+.*transfer", "BITSAdmin used for download (living-off-the-land)")
    ∷ ("rundll32.*\\.dll.*,.*#\\d+", "Rundll32 executing DLL export by ordinal")
    ∷ ("mshta\\s+http", "Mshta fetching remote payload")
    ∷ ("wscript|cscript.*\\.vbs.*http", "Script host with remote VBS")
    ∷ ("net\\s+user\\s+\\S+\\s+\\S+\\s+/add", "Local user account creation via net.exe")
    ∷ ("sekurlsa|lsadump", "LSASS memory dumping tooling")
    ∷ []

abbrev pub persistence_markers : List String
persistence_markers =
    "currentversion\\run" ∷ "currentversion\\runonce" ∷ "currentversion\\runservices" ∷ []

abbrev common_outbound_ports : List ℕ
common_outbound_ports =
    80 ∷ 443 ∷ 53 ∷ 123 ∷ 993 ∷ 995 ∷ 587 ∷ 465 ∷ 22 ∷ 21 ∷ 25 ∷ 110 ∷ 143 ∷ 3389 ∷ []

abbrev pub is_common_port : ℤ → Bool
is_common_port (pos n) = any_of (λ p. p == n) common_outbound_ports
is_common_port (negsuc n) = false

abbrev process_fields : Fields → Fields
process_fields p = field "pid" (get "pid" p) (
    field "ppid" (get "ppid" p) (
      field "name" (get "name" p) (
        field "exe" (get "exe" p)
          (field "user" (get "user" p) (field "hash_sha256" (get "hash_sha256" p) end)))))

abbrev pub joined : Attempt (List String) → Attempt String
joined (value parts) = value (join_with " " parts)
joined type_error = type_error

module _ (py : Python) where
  unfoldable pub fingerprint : List Value → Attempt String
  unfolding texts_of
  fingerprint parts = do ts ← texts_of parts; value (py.digest16 (join_with "|" ts))

  -- `" ".join(cmdline) if isinstance(cmdline, list) else str(cmdline)`
  abbrev pub join_cmdline : Value → Attempt String
  join_cmdline (arr xs) = joined (texts_of (items_of xs))
  join_cmdline v = value (py.str v)

  unfoldable pub cmdline_text : Fields → Attempt String
  cmdline_text proc = join_cmdline (or_value (get "cmdline" proc) (arr nil))

  first_match : String → List (String × String) → Option (String × String)
  first_match s [] = none
  first_match s ((pattern_, what) ∷ ps) =
      if py.search pattern_ s then some (pattern_, what) else first_match s ps

  -- `None`, or whether the address is outside the loopback, private, multicast and reserved ranges
  pub is_public_ip : String → Option Bool
  is_public_ip ip =
      if not (py.is_address ip)
      then none
      else some (
          not
            (py.is_loopback ip || (py.is_private ip || (py.is_multicast ip || py.is_reserved ip))))

  suspicious_hit : SecurityEvent → String → Option (String × String) → Attempt (Option Finding)
  unfolding fingerprint
  suspicious_hit ev line none = value none
  suspicious_hit ev line (some (pattern_, what)) = do
    let name = or_value (get "name" (section ev)) (text "unknown process")
    fp ← fingerprint (text "suspicious-cmdline" ∷ text ev.device_id ∷ text pattern_ ∷ name ∷ [])
    value (
        some (record {
          rule_id = "suspicious-cmdline";
          rule_name = "Suspicious command line";
          severity = "HIGH";
          confidence = 85;
          fingerprint = fp;
          evidence = field "cmdline" (text (clip 1000 line)) (
              field "process" (obj (process_fields (section ev)))
                (field "matched" (text what) end));
          device_id = "";
        }))

  unfoldable pub rule_suspicious_cmdline : SecurityEvent → Attempt (Option Finding)
  unfolding cmdline_text suspicious_hit first_match
  rule_suspicious_cmdline ev = if not (str_eq ev.event_type "process") then value none else do
    line ← cmdline_text (section ev)
    if str_eq line ""
        then value none
        else suspicious_hit ev line (first_match line suspicious_cmdline)

  unfoldable pub rule_persistence_change : SecurityEvent → Attempt (Option Finding)
  unfolding fingerprint
  rule_persistence_change ev =
      if not (str_eq ev.event_type "file")
      then value none
      else let path = py.str (or_value (get "path" (section ev)) (text "")) in
        let action = py.str (or_value (get "action" (section ev)) (text "")) in
        if not (mem_str action ("created" ∷ "modified" ∷ []))
        then value none
        else if not (any_of (λ m. is_infix m (py.lower path)) persistence_markers)
        then value none
        else do
          fp ← fingerprint (text "persistence-change" ∷ text ev.device_id ∷ text path ∷ [])
          value (
              some (record {
                rule_id = "persistence-change";
                rule_name = "Autorun persistence change";
                severity = "HIGH";
                confidence = 90;
                fingerprint = fp;
                evidence = field "path" (text path) (field "action" (text action) end);
                device_id = "";
              }))

  rare_port_hit : SecurityEvent → String → Option ℤ → Attempt (Option Finding)
  unfolding fingerprint is_public_ip
  rare_port_hit ev dst_ip none = value none
  rare_port_hit ev dst_ip (some port) =
      if str_eq dst_ip "" || is_common_port port then value none else elim (is_public_ip dst_ip) [
        | some true ↦ do
          fp ← fingerprint (
              text "rare-outbound-port"
              ∷ text ev.device_id
              ∷ text dst_ip
              ∷ text (py.str (int port))
              ∷ [])
          value (
              some (record {
                rule_id = "rare-outbound-port";
                rule_name = "Outbound connection on uncommon port";
                severity = "MEDIUM";
                confidence = 60;
                fingerprint = fp;
                evidence = field "dst_ip" (text dst_ip) (
                    field "dst_port" (int port) (
                      field "proto" (get "proto" (section ev)) (
                        field "process_name"
                          (or_value (get "process_name" (section ev)) (text "unknown process"))
                          (field "pid" (get "pid" (section ev)) end))));
                device_id = "";
              }))
        | _ ↦ value none
      ]

  unfoldable pub rule_rare_outbound_port : SecurityEvent → Attempt (Option Finding)
  unfolding rare_port_hit
  rule_rare_outbound_port ev =
      if not (str_eq ev.event_type "network")
      then value none
      else rare_port_hit ev (py.str (or_value (get "dst_ip" (section ev)) (text "")))
          (py.int_of (or_value (get "dst_port" (section ev)) (int (pos 0))))
