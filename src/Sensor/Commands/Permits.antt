-- ===== src/Sensor/Commands/Permits.antt =====
-- What the actions of a command may do (edysor_sensor.py, the command channel), with the
-- handlers of a kill and of a block.
use ai_soc.Prelude.{
  String, ◌≡◌, ◌≢◌, refl, ◌∙◌, ◌⊎◌, inl, inr, Bool, true, false, Option, none, some, [], ◌∷◌,
  str_eq, eq_iff, mem_str, is_infix, All, Bool-cases, join_with,
}
use ai_soc.Json.{Value, text, Fields, get, or_value, is_positive_int}
use ai_soc.Python.{Python}
use ai_soc.Sensor.Commands.{
  pid_number, name_of, kill_by_pid, kill_by_name, guarded_kill, kill_with, handle_kill_process,
  netsh_block, iptables, block_on, handle_block_ip, is_system_path,
}
use ai_soc.Sensor.Endpoint.{
  Platform, win32, linux, other_posix, Process, no_such_process, access_denied, running, Effect,
  run, kill, make_dir, move, delete_value, Host, pattern_chars, has_any,
}
use ai_soc.Sensor.Persistence.Paths.{HasNoBackslash}
use ai_soc.Sensor.Persistence.{is_task_name, text_of}

module _ (py : Python) (host : Host) (params : Fields) where
  -- The pid is one that the params name, and if they name the process too, that one runs under it.
  pub record Targets (pid : Value) : Type 0 where
    pub given : get "pid" params ≡ pid
    pub positive : is_positive_int pid ≡ true
    pub same_process :
        (name : String)
        → name_of host (get "name" params) ≡ some name
        → (actual : String) × (host.process (pid_number pid) ≡ running actual)
          × (py.lower actual ≡ py.lower name)

  -- What each action may do, and on which conditions.
  pub data Permitted : String → Effect → Type 0 where
    kill_pid : (pid : Value) → Targets pid → Permitted "kill_process" (kill (pid_number pid))
    taskkill_pid :
        (pid : Value)
        → Targets pid
        → Permitted "kill_process" (run ("taskkill" ∷ "/F" ∷ "/PID" ∷ py.str pid ∷ []))
    taskkill_name :
        (name : String)
        → name_of host (get "name" params) ≡ some name
        → Permitted "kill_process" (run ("taskkill" ∷ "/F" ∷ "/IM" ∷ name ∷ []))
    pkill_name :
        (name : String)
        → name_of host (get "name" params) ≡ some name
        → Permitted "kill_process" (run ("pkill" ∷ "-x" ∷ name ∷ []))
    drop_address :
        (ip : String) (e : Effect)
        → py.str (or_value (get "ip" params) (text "")) ≡ ip
        → py.is_address ip ≡ true
        → py.is_global ip ≡ true
        → (e ≡ netsh_block py host ip)
          ⊎ ((e ≡ iptables py host "-C" ip) ⊎ (e ≡ iptables py host "-A" ip))
        → Permitted "block_ip" e
    make_quarantine : Permitted "quarantine_file" (make_dir host.quarantine_dir)
    quarantine :
        (path resolved : String)
        → get "path" params ≡ text path
        → has_any pattern_chars path ≡ false
        → host.resolve path ≡ some resolved
        → host.is_file resolved ≡ true
        → is_system_path py host resolved ≡ false
        → Permitted "quarantine_file" (move resolved (host.quarantine_path resolved))
    delete_task :
        host.platform ≡ win32
        → is_task_name (get "task_name" params) ≡ true
        → Permitted "remove_persistence"
            (run ("schtasks" ∷ "/Delete" ∷ "/TN" ∷ text_of (get "task_name" params) ∷ "/F" ∷ []))
    delete_run :
        (path root key value : String)
        → host.platform ≡ win32
        → get "path" params ≡ text path
        → is_infix "currentversion\\run" (py.lower path) ≡ true
        → path ≡ join_with "\\" (root ∷ key ∷ value ∷ [])
        → mem_str root ("HKCU" ∷ "HKLM" ∷ []) ≡ true
        → value ≢ ""
        → HasNoBackslash value
        → has_any pattern_chars value ≡ false
        → Permitted "remove_persistence" (delete_value root key value)

  by_pid :
      (os : Platform) (pid : Value)
      → Targets pid
      → All (Permitted "kill_process") (kill_by_pid py host os pid).1
  by_pid win32 pid h = (taskkill_pid pid h, tt)
  by_pid linux pid h = (kill_pid pid h, tt)
  by_pid other_posix pid h = (kill_pid pid h, tt)

  by_name :
      (os : Platform) (name : String)
      → name_of host (get "name" params) ≡ some name
      → All (Permitted "kill_process") (kill_by_name py host os name).1
  by_name win32 name h = (taskkill_name name h, tt)
  by_name linux name h = (pkill_name name h, tt)
  by_name other_posix name h = (pkill_name name h, tt)

  guarded :
      (p : Process) (name : String)
      → host.process (pid_number (get "pid" params)) ≡ p
      → name_of host (get "name" params) ≡ some name
      → is_positive_int (get "pid" params) ≡ true
      → All (Permitted "kill_process") (guarded_kill py host p name (get "pid" params)).1
  guarded no_such_process name e n pos = tt
  guarded access_denied name e n pos = tt
  guarded (running actual) name e n pos =
      elim (Bool-cases (str_eq (py.lower actual) (py.lower name))) [
        | inr other ↦ rw other tt
        | inl same ↦ rw same (
            by_pid host.platform (get "pid" params) (record {
              given = refl;
              positive = pos;
              same_process =
                  λ m h. (actual, e, (eq_iff (py.lower actual) (py.lower name)).0 same ∙ names m h);
            }))
      ]
    where
      names : (m : String) → name_of host (get "name" params) ≡ some m → py.lower name ≡ py.lower m
      names m h = cc (n, h)

  kill-Permitted :
      (has_pid : Bool) (name : Option String)
      → is_positive_int (get "pid" params) ≡ has_pid
      → name_of host (get "name" params) ≡ name
      → All (Permitted "kill_process") (kill_with py host has_pid name (get "pid" params)).1
  kill-Permitted false none p n = tt
  kill-Permitted true none p n =
      by_pid host.platform (get "pid" params)
        (record { given = refl; positive = p; same_process = λ m h. cc (n, h) })
  kill-Permitted false (some name) p n = by_name host.platform name n
  kill-Permitted true (some name) p n =
      guarded (host.process (pid_number (get "pid" params))) name refl n p

  pub handle_kill_process-Permitted :
      All (Permitted "kill_process") (handle_kill_process py host params).1
  unfolding handle_kill_process
  handle_kill_process-Permitted =
      kill-Permitted (is_positive_int (get "pid" params)) (name_of host (get "name" params)) refl
        refl

  block-Permitted :
      (os : Platform) (ip : String)
      → py.str (or_value (get "ip" params) (text "")) ≡ ip
      → py.is_address ip ≡ true
      → py.is_global ip ≡ true
      → All (Permitted "block_ip") (block_on py host os ip).1
  block-Permitted win32 ip e a g = (drop_address ip _ e a g (inl refl), tt)
  block-Permitted linux ip e a g = elim (Bool-cases (host.succeeds (iptables py host "-C" ip))) [
    | inl there ↦ rw there (drop_address ip _ e a g (inr (inl refl)), tt)
    | inr new ↦
        rw new
          (drop_address ip _ e a g (inr (inl refl)), (drop_address ip _ e a g (inr (inr refl)), tt))
  ]
  block-Permitted other_posix ip e a g = tt

  pub handle_block_ip-Permitted : All (Permitted "block_ip") (handle_block_ip py host params).1
  unfolding handle_block_ip
  handle_block_ip-Permitted =
      let ip = py.str (or_value (get "ip" params) (text "")) in
      elim (Bool-cases (py.is_address ip)) [
        | inr bad ↦ rw bad tt
        | inl address ↦ elim (Bool-cases (py.is_global ip)) [
          | inr private ↦ rw (address, private) tt
          | inl public ↦ rw (address, public) (block-Permitted host.platform ip refl address public)
        ]
      ]
