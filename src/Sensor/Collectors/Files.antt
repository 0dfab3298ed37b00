-- ===== src/Sensor/Collectors/Files.antt =====
-- sensor/edysor_sensor.py: the collectors of files and of Run values of the Windows registry, which
-- compare each scan with the one before. The paths that the configuration expands to are an input,
-- in the order of the calls of `os.stat`.
use ai_soc.Prelude.{
  String, ℕ, Bool, true, not, ◌&&◌, Option, none, some, List, [], ◌∷◌, ◌++◌, ◌==◌, str_eq,
  str_append, if◌then◌else◌, map, or_else,
}
use ai_soc.Prelude.Assoc.{Assoc, lookup}
use ai_soc.Json.{Value, null, text, Fields, end, field}
use ai_soc.Sensor.Events.{text_or_null, sensor_event, hint_for_file}
use ai_soc.Sensor.Snapshots.{Action, created, modified, deleted, Change, changes, snapshot}
use ai_soc.Sensor.Collectors.{CollectorState, Readings}

abbrev pub action_name : Action → String
action_name created = "created"
action_name modified = "modified"
action_name deleted = "deleted"

abbrev pub file_section : String → Action → Option String → Fields
file_section path action hash = field "path" (text path) (
    field "action" (text (action_name action))
      (field "hash_sha256" (text_or_null hash) (field "pid" null (field "process_name" null end))))

-- the modification time and the size
abbrev pub same_stat : ℕ × ℕ → ℕ × ℕ → Bool
same_stat (t, n) (u, m) = (t == u) && (n == m)

abbrev pub values : List (String × String) → List (String × Option String)
values = map (λ e. (e.0, some e.1))

abbrev pub path_of : String → String → String
path_of key_path name = str_append key_path (str_append "\\" name)

abbrev pub run_keys : List (String × String)
run_keys =
    ("HKCU", "Software\\Microsoft\\Windows\\CurrentVersion\\Run")
    ∷ ("HKLM", "Software\\Microsoft\\Windows\\CurrentVersion\\Run")
    ∷ []

-- what `_read_run_key` makes of the values that the registry lists, if it lets the key be read
unfoldable pub read_run_key : Option (List (String × String)) → Option (Assoc String)
unfolding snapshot
read_run_key none = none
read_run_key (some listed) = some (snapshot [] (values listed))

abbrev pub run_snapshot :
    (String → String → Option (List (String × String)))
    → List (String × String)
    → List (String × Option (Assoc String))
run_snapshot read [] = []
run_snapshot read ((root, subkey) ∷ keys) =
    (path_of root subkey, read_run_key (read root subkey)) ∷ run_snapshot read keys

module _ (r : Readings) where
  abbrev hash_now : Action → String → Option String
  hash_now deleted path = none
  hash_now _ path = r.sha256_file path

  unfoldable pub file_event : Change (ℕ × ℕ) → Value
  file_event c =
      sensor_event (r.now_iso (c.name)) "file" hint_for_file
        (file_section (c.name) (c.action) (hash_now (c.action) (c.name)))

  -- The first scan only sets the baseline.
  unfoldable pub collect_files :
      CollectorState → List (String × Option (ℕ × ℕ)) → List Value × CollectorState
  unfolding file_event snapshot changes
  collect_files state answers =
      let current = snapshot [] answers in
      (
        if not (state.baselined_files)
            then []
            else map file_event (changes same_stat (state.file_state) current),
        record state { file_state = current; baselined_files = true },
      )

  abbrev pub hash_of_data : Option String → Option String
  hash_of_data none = none
  hash_of_data (some value) = some (r.sha256 value)

  unfoldable pub run_event : String → Change String → Value
  run_event key_path c =
      let path = path_of key_path (c.name) in
      sensor_event (r.now_iso path) "file" "high"
        (file_section path (c.action) (hash_of_data (c.now)))

  unfoldable pub report_keys : Assoc (Assoc String) → Assoc (Assoc String) → List Value
  unfolding run_event changes lookup
  report_keys old [] = []
  report_keys old ((key_path, vals) ∷ current) =
      map (run_event key_path) (changes str_eq (or_else (lookup key_path old) []) vals)
      ++ report_keys old current

  unfoldable pub collect_win_persistence :
      Bool
      → CollectorState
      → (String → String → Option (List (String × String)))
      → List Value × CollectorState
  unfolding report_keys snapshot
  collect_win_persistence win32 state read =
      let current = snapshot [] (run_snapshot read run_keys) in
      if not win32 then ([], state) else (
        if not (state.run_baselined) then [] else report_keys (state.run_values) current,
        record state { run_values = current; run_baselined = true },
      )
