-- ===== src/Sensor/Collectors/Auth.antt =====
-- sensor/edysor_sensor.py: the collector that follows /var/log/auth.log. The file and the matching of
-- a pattern are inputs; an offset that could not be saved is logged and stays in memory.
use ai_soc.Prelude.{
  String, ℕ, zero, suc, ◌-◌, Bool, not, ◌||◌, Option, none, some, List, [], ◌∷◌, ◌++◌, str_eq,
  if◌then◌else◌, length, ltb, ◌==◌,
}
use ai_soc.Json.{Value, text, end, field}
use ai_soc.Sensor.Events.{text_or_null, sensor_event, hint_for_auth}

pub record AuthPattern : Type 0 where
  pub pattern : String
  pub action : String
  pub result : String

abbrev auth_pattern : String → String → String → AuthPattern
auth_pattern pattern action result = record { pattern = pattern; action = action; result = result }

abbrev pub auth_patterns : List AuthPattern
auth_patterns =
    auth_pattern "Failed password for (?:invalid user )?(\\S+) from (\\S+)" "failed_login" "failure"
    ∷ auth_pattern "Accepted (?:password|publickey) for (\\S+) from (\\S+)" "login" "success"
    ∷ auth_pattern "session opened for user (\\S+).*by (\\S+)" "login" "success"
    ∷ auth_pattern "session closed for user (\\S+)" "logout" "success"
    ∷ auth_pattern "sudo:\\s+(\\S+)\\s*:.*COMMAND=" "sudo" "success"
    ∷ []

-- `pattern.search(line)` with its first and second group, the test of a group for the characters of
-- an address, and the clock while the event of a line is built.
pub record Matching : Type 0 where
  pub search : String → String → Option (String × Option String)
  pub address_like : String → Bool
  pub now_iso : String → String

-- `none` where `stat` or the reading raises; the lines from an offset on, and the end of the file
pub record AuthLog : Type 0 where
  pub size : Option ℕ
  pub read_from : ℕ → Option (List String × ℕ)

abbrev pub max_lines : ℕ
max_lines = 500

abbrev drop_lines : ℕ → List String → List String
drop_lines zero lines = lines
drop_lines (suc n) [] = []
drop_lines (suc n) (line ∷ lines) = drop_lines n lines

-- `lines[-500:]`
abbrev pub last_lines : List String → List String
last_lines lines = drop_lines (length lines - max_lines) lines

module _ (m : Matching) where
  abbrev source_of : Option String → Option String
  source_of none = none
  source_of (some ip) = if str_eq ip "" || m.address_like ip then some ip else none

  abbrev pub auth_event : String → AuthPattern → String → Option String → Value
  auth_event line p user ip = sensor_event (m.now_iso line) "auth" (hint_for_auth (p.action)) (
      field "user" (text user) (
        field "action" (text (p.action))
          (field "src_ip" (text_or_null (source_of ip)) (field "result" (text (p.result)) end))))

  abbrev pub or_event :
      String → AuthPattern → Option (String × Option String) → List Value → List Value
  or_event line p none rest = rest
  or_event line p (some (user, ip)) rest = auth_event line p user ip ∷ []

  -- the first pattern that fits
  unfoldable pub line_event : String → List AuthPattern → List Value
  line_event line [] = []
  line_event line (p ∷ ps) = or_event line p (m.search (p.pattern) line) (line_event line ps)

  unfoldable pub line_events : List String → List Value
  unfolding line_event
  line_events [] = []
  line_events (line ∷ lines) = line_event line auth_patterns ++ line_events lines

  unfoldable pub read_lines : ℕ → ℕ → Option (List String × ℕ) → List Value × ℕ
  unfolding line_events
  read_lines saved offset none = ([], saved)
  read_lines saved offset (some (lines, new_offset)) =
      (line_events (last_lines lines), if new_offset == offset then saved else new_offset)

  -- a log that is shorter than the offset was rotated
  unfoldable pub tail_log : AuthLog → ℕ → Option ℕ → List Value × ℕ
  unfolding read_lines
  tail_log log saved none = ([], saved)
  tail_log log saved (some size) =
      let offset = if ltb size saved then 0 else saved in
      read_lines saved offset (log.read_from offset)

  -- the events, and the offset that the configuration then holds
  unfoldable pub collect_auth : Bool → AuthLog → ℕ → List Value × ℕ
  unfolding tail_log
  collect_auth linux log saved = if not linux then ([], saved) else tail_log log saved (log.size)
