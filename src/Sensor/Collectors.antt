-- ===== src/Sensor/Collectors.antt =====
-- sensor/edysor_sensor.py: the state of the collectors, and the collector of processes. What
-- the operating system answers, the clock and the hash of a file are inputs; the state of the
-- Windows event log is left out with its collector.
pub mod Connections
pub mod Keys
pub mod Network
pub mod Files
pub mod Scans
pub mod Auth
pub mod Kinds
pub mod Accepted
pub mod Detected
use ai_soc.Prelude.{
  String, ℕ, Bool, true, false, not, ◌&&◌, ◌||◌, Option, none, some, List, [], ◌∷◌, ◌++◌, ◌==◌,
  str_eq, str_append, if◌then◌else◌, any_of, join_with, or_else, length, ltb, map,
}
use ai_soc.Prelude.Assoc.{Assoc}
use ai_soc.Json.{Value, null, text, int, arr, pos, Items, nil, cons, Fields, end, field}
use ai_soc.Python.{Python}
use ai_soc.Sensor.Events.{
  text_or_null, number_or_null, sensor_event, hint_for_process, hint_for_network,
}

-- a key of `conns`: the process, the type of the socket, both ends and the status
pub record ConnKey : Type 0 where
  pub pid : Option ℕ
  pub kind : ℕ
  pub near : String
  pub far : String
  pub status : String

pub record CollectorState : Type 0 where
  pub pids : List ℕ
  pub pid_names : List (ℕ × String)
  pub baselined_processes : Bool
  pub conns : List ConnKey
  -- the modification time, in the units of the clock, and the size
  pub file_state : Assoc (ℕ × ℕ)
  pub baselined_files : Bool
  pub run_values : Assoc (Assoc String)
  pub run_baselined : Bool

abbrev pub new_state : CollectorState
new_state = record {
  pids = [];
  pid_names = [];
  baselined_processes = false;
  conns = [];
  file_state = [];
  baselined_files = false;
  run_values = [];
  run_baselined = false;
}

-- What a collector reads while it builds the event for a name: the clock, and the hash of a file.
pub record Readings : Type 0 where
  pub now_iso : String → String
  pub sha256_file : String → Option String
  -- `hashlib.sha256(s.encode("utf-8", errors="replace")).hexdigest()`
  pub sha256 : String → String

pub record Process : Type 0 where
  pub pid : Option ℕ
  pub ppid : Option ℕ
  pub name : Option String
  pub exe : Option String
  pub cmdline : Option (List String)
  pub username : Option String
  -- the start time as text, where it can be told
  pub started_at : Option String

pub record Connection : Type 0 where
  pub pid : Option ℕ
  pub kind : ℕ
  pub laddr : Option (String × ℕ)
  pub raddr : Option (String × ℕ)
  pub status : String

abbrev pub has_pid : ℕ → List ℕ → Bool
has_pid pid = any_of (λ p. p == pid)

abbrev pub name_of_pid : Option ℕ → List (ℕ × String) → Option String
name_of_pid none names = none
name_of_pid (some pid) [] = none
name_of_pid (some pid) ((p, name) ∷ names) =
    if p == pid then some name else name_of_pid (some pid) names

abbrev pub texts : List String → Items
texts [] = nil
texts (s ∷ ss) = cons (text s) (texts ss)

abbrev pub hash_of : Readings → String → Option String
hash_of r exe = if str_eq exe "" then none else r.sha256_file exe

abbrev pub non_empty : String → Option String
non_empty s = if str_eq s "" then none else some s

-- `current_pids`
abbrev pub pid_of_snapshot : List Process → List ℕ
pid_of_snapshot [] = []
pid_of_snapshot (p ∷ ps) =
    let rest = pid_of_snapshot ps in elim (p.pid) [ none ↦ rest | some pid ↦ pid ∷ rest ]

-- Of two processes with one id, the later one gives the name.
abbrev pub names_of_snapshot : List Process → List (ℕ × String) → List (ℕ × String)
names_of_snapshot [] names = names
names_of_snapshot (p ∷ ps) names = elim (p.pid) [
  | none ↦ names_of_snapshot ps names
  | some pid ↦ names_of_snapshot ps ((pid, or_else (p.name) "") ∷ names)
]

module _ (py : Python) (r : Readings) where
  abbrev pub process_event : ℕ → Process → Value
  process_event pid p =
      let cmdline = or_else (p.cmdline) [] in
      let exe = or_else (p.exe) "" in
      let name = or_else (p.name) "" in
      sensor_event (r.now_iso name) "process" (hint_for_process py (join_with " " cmdline)) (
        field "pid" (int (pos pid)) (
          field "ppid" (number_or_null (p.ppid)) (
            field "name" (text name) (
              field "exe" (text_or_null (non_empty exe)) (
                field "cmdline" (arr (texts cmdline)) (
                  field "user" (text_or_null (p.username)) (
                    field "started_at" (text_or_null (p.started_at))
                      (field "hash_sha256" (text_or_null (hash_of r exe)) end))))))))

  abbrev pub report_process : CollectorState → Process → Option ℕ → List Value
  report_process state p none = []
  report_process state p (some pid) =
      if not (state.baselined_processes) || has_pid pid (state.pids)
      then []
      else process_event pid p ∷ []

  abbrev pub report_processes : CollectorState → List Process → List Value
  report_processes state [] = []
  report_processes state (p ∷ ps) = report_process state p (p.pid) ++ report_processes state ps

  -- `none` where the snapshot raises
  unfoldable pub collect_processes :
      CollectorState → Option (List Process) → List Value × CollectorState
  collect_processes state none = ([], state)
  collect_processes state (some procs) = (
    report_processes state procs,
    record state {
      pids = pid_of_snapshot procs;
      pid_names = names_of_snapshot procs [];
      baselined_processes = true;
    },
  )
