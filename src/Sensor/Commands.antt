-- ===== src/Sensor/Commands.antt =====
-- sensor/edysor_sensor.py: the command channel. A handler answers and lists what it did to the
-- endpoint; the answers of the operating system are a parameter. The detail of an answer is left
-- out, and a handler that crashes on its params counts as one that refuses them.
pub mod Agreement
pub mod Permits
pub mod Safety
use Prim.Native.Char.{Char, code}
use Prim.Native.String
use ai_soc.Prelude.{
  ℕ, String, Bool, true, false, not, ◌&&◌, ◌||◌, Option, none, some, List, [], ◌∷◌, ◌++◌, ◌==◌, leb,
  if◌then◌else◌, str_eq, str_append, starts_with, any_of, is_infix, join_with, mem_str, is_none,
}
use ai_soc.Json.{Value, bool, int, pos, text, Fields, get, or_value, fields_of, is_positive_int}
use ai_soc.Python.{Python}
use ai_soc.Sensor.Endpoint.{
  Platform, win32, linux, other_posix, Process, no_such_process, access_denied, running, Effect,
  run, kill, make_dir, move, delete_value, Host, Verdict, refused, failed, done, Handled,
  pattern_chars, has_any, attempt, no_effect,
}
use ai_soc.Sensor.Persistence.{
  add_to_head, split_backslash, last_of, all_but_last, is_task_name, text_of, delete_run_value,
  remove_run_value, remove_path_value, remove_on, handle_remove_persistence,
}

abbrev pub command_actions : List String
command_actions = "kill_process" ∷ "block_ip" ∷ "quarantine_file" ∷ "remove_persistence" ∷ []

-- `pid` where it is a positive integer; in Python `True` is 1
abbrev pub pid_number : Value → ℕ
pid_number (bool b) = 1
pid_number (int (pos n)) = n
pid_number _ = 0

abbrev pub exact_name : Host → String → Bool
exact_name host s =
    not (str_eq s "")
    && (not (has_any pattern_chars s)
        && (str_eq (host.basename s) s && not (has_any ("\\" ∷ "/" ∷ []) s)))

-- the name, where it is one that the handler accepts
abbrev pub name_of : Host → Value → Option String
name_of host (text s) = if exact_name host s then some s else none
name_of host _ = none

module _ (py : Python) (host : Host) where
  abbrev kill_by_pid : Platform → Value → Handled
  kill_by_pid win32 pid = attempt host (run ("taskkill" ∷ "/F" ∷ "/PID" ∷ py.str pid ∷ []))
  kill_by_pid _ pid = attempt host (kill (pid_number pid))

  abbrev kill_by_name : Platform → String → Handled
  kill_by_name win32 name = attempt host (run ("taskkill" ∷ "/F" ∷ "/IM" ∷ name ∷ []))
  kill_by_name _ name = attempt host (run ("pkill" ∷ "-x" ∷ name ∷ []))

  -- the guard against a pid that another process has taken over
  abbrev guarded_kill : Process → String → Value → Handled
  guarded_kill no_such_process name pid = no_effect failed
  guarded_kill access_denied name pid = no_effect failed
  guarded_kill (running actual) name pid =
      if not (str_eq (py.lower actual) (py.lower name))
      then no_effect refused
      else kill_by_pid host.platform pid

  abbrev kill_with : Bool → Option String → Value → Handled
  kill_with false none pid = no_effect refused
  kill_with true none pid = kill_by_pid host.platform pid
  kill_with false (some name) pid = kill_by_name host.platform name
  kill_with true (some name) pid = guarded_kill (host.process (pid_number pid)) name pid

  unfoldable pub handle_kill_process : Fields → Handled
  handle_kill_process params =
      let pid = get "pid" params in
      kill_with (is_positive_int pid) (name_of host (get "name" params)) pid

  abbrev netsh_block : String → Effect
  netsh_block ip = run (
      "netsh"
      ∷ "advfirewall"
      ∷ "firewall"
      ∷ "add"
      ∷ "rule"
      ∷ str_append "name=EDYSOR-block-" ip
      ∷ "dir=out"
      ∷ "action=block"
      ∷ str_append "remoteip=" ip
      ∷ [])

  abbrev pub iptables : String → String → Effect
  iptables flag ip = run ("iptables" ∷ flag ∷ "OUTPUT" ∷ "-d" ∷ ip ∷ "-j" ∷ "DROP" ∷ [])

  -- a rule that is there already counts as success
  abbrev iptables_block : String → Handled
  iptables_block ip = if host.succeeds (iptables "-C" ip) then (done, iptables "-C" ip ∷ []) else (
    if host.succeeds (iptables "-A" ip) then done else failed,
    iptables "-C" ip ∷ iptables "-A" ip ∷ [],
  )

  abbrev block_on : Platform → String → Handled
  block_on win32 ip = attempt host (netsh_block ip)
  block_on linux ip = iptables_block ip
  block_on other_posix ip = no_effect failed

  unfoldable pub handle_block_ip : Fields → Handled
  handle_block_ip params =
      let ip = py.str (or_value (get "ip" params) (text "")) in
      if not (py.is_address ip)
      then no_effect refused
      else if not (py.is_global ip)
      then no_effect refused
      else block_on host.platform ip

  abbrev pub system_prefixes : List String
  system_prefixes =
      py.lower host.system_root
      ∷ "/bin"
      ∷ "/sbin"
      ∷ "/usr/bin"
      ∷ "/usr/sbin"
      ∷ "/lib"
      ∷ "/usr/lib"
      ∷ []

  abbrev pub is_system_path : String → Bool
  is_system_path resolved =
      any_of (λ prefix. starts_with (py.lower resolved) prefix) system_prefixes

  abbrev quarantine_resolved : Option String → Handled
  quarantine_resolved none = no_effect refused
  quarantine_resolved (some resolved) =
      if not (host.is_file resolved)
      then no_effect refused
      else if is_system_path resolved
      then no_effect refused
      else let moved = move resolved (host.quarantine_path resolved) in
        if not (host.succeeds (make_dir host.quarantine_dir))
        then (failed, make_dir host.quarantine_dir ∷ [])
        else (
          if host.succeeds moved then done else failed,
          make_dir host.quarantine_dir ∷ moved ∷ [],
        )

  abbrev quarantine_path_value : Value → Handled
  quarantine_path_value (text s) =
      if str_eq s "" || has_any pattern_chars s
      then no_effect refused
      else quarantine_resolved (host.resolve s)
  quarantine_path_value _ = no_effect refused

  unfoldable pub handle_quarantine_file : Fields → Handled
  handle_quarantine_file params = quarantine_path_value (get "path" params)

module _ (py : Python) (host : Host) where
  -- the allowlist, and the handler of each action
  unfoldable pub handle : String → Fields → Handled
  unfolding handle_remove_persistence
  handle action params =
      if not (mem_str action command_actions)
      then no_effect refused
      else if str_eq action "kill_process"
      then handle_kill_process py host params
      else if str_eq action "block_ip"
      then handle_block_ip py host params
      else if str_eq action "quarantine_file"
      then handle_quarantine_file py host params
      else handle_remove_persistence py host params

pub record Command : Type 0 where
  pub id : ℕ
  pub action : String
  pub params : Value

pub record Ack : Type 0 where
  pub id : ℕ
  pub status : String

abbrev pub status_of : Verdict → String
status_of done = "acked"
status_of _ = "failed"

module _ (py : Python) (host : Host) where
  unfoldable pub execute_command : Command → Ack × List Effect
  execute_command cmd =
      let (v, effects) = handle py host cmd.action (fields_of cmd.params) in
      (record { id = cmd.id; status = status_of v }, effects)

  -- the loop of `poll_commands`
  pub execute_all : List Command → List Ack × List Effect
  execute_all [] = ([], [])
  execute_all (cmd ∷ rest) =
      let (ack, effects) = execute_command cmd in
      let (acks, more) = execute_all rest in (ack ∷ acks, effects ++ more)

-- `int(data.get("poll_interval_s") or 0)`, kept if it is a sane cadence
pub adopted_interval : ℕ → Option ℕ
adopted_interval seconds = if leb 10 seconds && leb seconds 600 then some seconds else none
