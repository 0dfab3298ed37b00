-- ===== src/Sensor/Events.antt =====
-- sensor/edysor_sensor.py: the events that the collectors build, and the hints on how severe they
-- are.
use ai_soc.Prelude.{
  String, ℕ, Bool, true, false, not, ◌&&◌, ◌||◌, Option, none, some, [], ◌∷◌, str_eq, mem_str,
  if◌then◌else◌,
}
use ai_soc.Json.{Value, null, text, int, pos, obj, Fields, end, field}
use ai_soc.Python.{Python}

abbrev pub suspicious_tools : String
suspicious_tools =
    "(^|[\\s;/\\\\])(curl|wget|nc|ncat|nmap|base64|xxd|powershell|pwsh|mimikatz)([\\s;]|$)|/dev/tcp/|base64\\s+(-d|--decode)"

abbrev pub text_or_null : Option String → Value
text_or_null none = null
text_or_null (some s) = text s

abbrev pub number_or_null : Option ℕ → Value
number_or_null none = null
number_or_null (some n) = int (pos n)

-- an event of a kind, with its section under the name of the kind
abbrev pub sensor_event : String → String → String → Fields → Value
sensor_event now kind hint section = obj (
    field "event_type" (text kind) (
      field "observed_at" (text now)
        (field "severity_hint" (text hint) (field kind (obj section) end))))

abbrev pub hint_for_file : String
hint_for_file = "high"

unfoldable pub hint_for_auth : String → String
hint_for_auth action =
    if str_eq action "failed_login"
    then "medium"
    else if mem_str action ("login" ∷ "sudo" ∷ "ssh" ∷ [])
    then "low"
    else "info"

module _ (py : Python) where
  -- `True`, `False`, or `None` for what is no address
  unfoldable pub is_public_ip : String → Option Bool
  is_public_ip ip =
      if not (py.is_address ip)
      then none
      else if py.is_loopback ip || (py.is_link_local ip || py.is_multicast ip)
      then some false
      else some (not (py.is_private ip))

  unfoldable pub hint_for_process : String → String
  hint_for_process cmdline =
      if not (str_eq cmdline "") && py.search suspicious_tools cmdline then "medium" else "info"

  abbrev pub low_if : Option Bool → String
  low_if (some true) = "low"
  low_if _ = "info"

  unfoldable pub hint_for_network : String → String
  unfolding is_public_ip
  hint_for_network dst_ip = low_if (is_public_ip dst_ip)
