-- ===== src/Sensor/Collectors/Accepted.antt =====
-- The events of the collectors, as the backend validates them (edysor_sensor.py and
-- backend/app/api/v1/events.py, validate_event).
use ai_soc.Prelude.{
  String, ℕ, refl, Bool, true, false, not, ◌||◌, Option, none, some, List, [], ◌∷◌, map, All,
  All-append, if◌then◌else◌, Bool-cases, ltb, inl, inr,
}
use ai_soc.Json.{Value}
use ai_soc.Python.{Python}
use ai_soc.Sensor.Snapshots.{Change}
use ai_soc.Sensor.Collectors.{
  CollectorState, Readings, Process, Connection, has_pid, report_process, report_processes,
  collect_processes,
}
use ai_soc.Sensor.Collectors.Connections.{
  seen, conn_key, remote_of, take_new, take_far, take_conn, take_conns, collect_network,
}
use ai_soc.Prelude.Assoc.{Assoc}
use ai_soc.Sensor.Collectors.Files.{
  file_event, collect_files, run_event, report_keys, collect_win_persistence,
}
use ai_soc.Sensor.Snapshots.{snapshot}
use ai_soc.Sensor.Collectors.Files.{run_snapshot, run_keys}
use ai_soc.Sensor.Collectors.Auth.{
  Matching, AuthPattern, auth_patterns, line_event, line_events, or_event, read_lines, tail_log,
  last_lines, AuthLog, collect_auth,
}
use ai_soc.Sensor.Collectors.Kinds.{
  Plain, Timely, Accepts, process, network, file, auth, sensor_event-Accepts, process_hint,
  network_hint, auth_hint,
}

module _ (py : Python) (iso : String → Option ℕ) (tenant_id : ℕ) (device_id : String)
    (plain : Plain py) where
  module _ (r : Readings)
      (timely : (name : String) → Timely py iso tenant_id device_id (r.now_iso name)) where
    process-Accepts :
        (state : CollectorState) (p : Process) (pid : Option ℕ)
        → All (Accepts py iso tenant_id device_id) (report_process py r state p pid)
    process-Accepts state p none = tt
    process-Accepts state p (some pid) =
        elim (Bool-cases (not (state.baselined_processes) || has_pid pid (state.pids))) [
          | inl old ↦ rw old tt
          | inr new ↦ rw new (
            sensor_event-Accepts py iso tenant_id device_id plain process _ _ _ (process_hint py _)
                (timely _),
            tt,
          )
        ]

    processes-Accepts :
        (state : CollectorState) (ps : List Process)
        → All (Accepts py iso tenant_id device_id) (report_processes py r state ps)
    processes-Accepts state [] = tt
    processes-Accepts state (p ∷ ps) =
        All-append _ _ _ (process-Accepts state p (p.pid)) (processes-Accepts state ps)

    collect_processes-Accepts :
        (state : CollectorState) (answer : Option (List Process))
        → All (Accepts py iso tenant_id device_id) (collect_processes py r state answer).0
    unfolding collect_processes
    collect_processes-Accepts state none = tt
    collect_processes-Accepts state (some ps) = processes-Accepts state ps

    far-Accepts :
        (far : Option (String × ℕ)) (state : CollectorState) (c : Connection)
        → All (Accepts py iso tenant_id device_id) (take_far py r far state c).0
    unfolding take_far take_new
    far-Accepts none state c = tt
    far-Accepts (some far) state c = new_far (seen (conn_key py c) (state.conns))
      where
        new_far :
            (known : Bool)
            → All (Accepts py iso tenant_id device_id) (take_new py r known state c far).0
        new_far true = tt
        new_far false = (
          sensor_event-Accepts py iso tenant_id device_id plain network _ _ _
              (network_hint py (far.0)) (timely _),
          tt,
        )

    conns-Accepts :
        (cs : List Connection) (state : CollectorState)
        → All (Accepts py iso tenant_id device_id) (take_conns py r state cs).0
    unfolding take_conns take_conn
    conns-Accepts [] state = tt
    conns-Accepts (c ∷ cs) state =
        All-append _ _ _ (far-Accepts (remote_of py (c.raddr)) state c) (conns-Accepts cs _)

    collect_network-Accepts :
        (state : CollectorState) (answer : Option (List Connection))
        → All (Accepts py iso tenant_id device_id) (collect_network py r state answer).0
    unfolding collect_network
    collect_network-Accepts state none = tt
    collect_network-Accepts state (some cs) = conns-Accepts cs state

    file_events-Accepts :
        (cs : List (Change (ℕ × ℕ)))
        → All (Accepts py iso tenant_id device_id) (map (file_event r) cs)
    unfolding file_event
    file_events-Accepts [] = tt
    file_events-Accepts (c ∷ cs) = (
      sensor_event-Accepts py iso tenant_id device_id plain file _ _ _ refl (timely _),
      file_events-Accepts cs,
    )

    collect_files-Accepts :
        (state : CollectorState) (answers : List (String × Option (ℕ × ℕ)))
        → All (Accepts py iso tenant_id device_id) (collect_files r state answers).0
    unfolding collect_files
    collect_files-Accepts state answers = elim (Bool-cases (state.baselined_files)) [
      | inl later ↦ rw later (file_events-Accepts _)
      | inr first ↦ rw first tt
    ]

    run_events-Accepts :
        (key : String) (cs : List (Change String))
        → All (Accepts py iso tenant_id device_id) (map (run_event r key) cs)
    unfolding run_event
    run_events-Accepts key [] = tt
    run_events-Accepts key (c ∷ cs) = (
      sensor_event-Accepts py iso tenant_id device_id plain file _ _ _ refl (timely _),
      run_events-Accepts key cs,
    )

    keys-Accepts :
        (old current : Assoc (Assoc String))
        → All (Accepts py iso tenant_id device_id) (report_keys r old current)
    unfolding report_keys
    keys-Accepts old [] = tt
    keys-Accepts old ((key, vals) ∷ current) =
        All-append _ _ _ (run_events-Accepts key _) (keys-Accepts old current)

    collect_win_persistence-Accepts :
        (win32 : Bool) (state : CollectorState)
        (read : String → String → Option (List (String × String)))
        → All (Accepts py iso tenant_id device_id) (collect_win_persistence r win32 state read).0
    unfolding collect_win_persistence
    collect_win_persistence-Accepts false state read = tt
    collect_win_persistence-Accepts true state read = elim (Bool-cases (state.run_baselined)) [
      | inl later ↦
          rw later (keys-Accepts (state.run_values) (snapshot [] (run_snapshot read run_keys)))
      | inr first ↦ rw first tt
    ]

  module _ (m : Matching)
      (timely : (line : String) → Timely py iso tenant_id device_id (m.now_iso line)) where
    or_event-Accepts :
        (line : String) (p : AuthPattern) (found : Option (String × Option String))
        (rest : List Value)
        → All (Accepts py iso tenant_id device_id) rest
        → All (Accepts py iso tenant_id device_id) (or_event m line p found rest)
    or_event-Accepts line p none rest h = h
    or_event-Accepts line p (some (user, ip)) rest h = (
      sensor_event-Accepts py iso tenant_id device_id plain auth _ _ _ (auth_hint (p.action))
          (timely line),
      tt,
    )

    line_event-Accepts :
        (line : String) (ps : List AuthPattern)
        → All (Accepts py iso tenant_id device_id) (line_event m line ps)
    unfolding line_event
    line_event-Accepts line [] = tt
    line_event-Accepts line (p ∷ ps) =
        or_event-Accepts line p (m.search (p.pattern) line) _ (line_event-Accepts line ps)

    line_events-Accepts :
        (lines : List String) → All (Accepts py iso tenant_id device_id) (line_events m lines)
    unfolding line_events
    line_events-Accepts [] = tt
    line_events-Accepts (line ∷ lines) =
        All-append _ _ _ (line_event-Accepts line auth_patterns) (line_events-Accepts lines)

    read_lines-Accepts :
        (saved offset : ℕ) (read : Option (List String × ℕ))
        → All (Accepts py iso tenant_id device_id) (read_lines m saved offset read).0
    unfolding read_lines
    read_lines-Accepts saved offset none = tt
    read_lines-Accepts saved offset (some (lines, end)) = line_events-Accepts (last_lines lines)

    tail_log-Accepts :
        (log : AuthLog) (saved : ℕ) (size : Option ℕ)
        → All (Accepts py iso tenant_id device_id) (tail_log m log saved size).0
    unfolding tail_log
    tail_log-Accepts log saved none = tt
    tail_log-Accepts log saved (some size) =
        let offset = if ltb size saved then 0 else saved in
        read_lines-Accepts saved offset (log.read_from offset)

    collect_auth-Accepts :
        (linux : Bool) (log : AuthLog) (saved : ℕ)
        → All (Accepts py iso tenant_id device_id) (collect_auth m linux log saved).0
    unfolding collect_auth
    collect_auth-Accepts false log saved = tt
    collect_auth-Accepts true log saved = tail_log-Accepts log saved (log.size)

  -- Whatever the operating system answers, the backend accepts every event of the five collectors:
  -- its kind and hint are known ones, and its section is there. The clock must read as a time for
  -- the backend, and small letters must stand for themselves.
  pub collectors-Accepts :
      (r : Readings) (m : Matching)
      → ((name : String) → Timely py iso tenant_id device_id (r.now_iso name))
      → ((line : String) → Timely py iso tenant_id device_id (m.now_iso line))
      → (state : CollectorState) (processes : Option (List Process))
        (connections : Option (List Connection)) (stats : List (String × Option (ℕ × ℕ)))
        (windows linux : Bool) (read : String → String → Option (List (String × String)))
        (log : AuthLog) (saved : ℕ)
      → All (Accepts py iso tenant_id device_id) (collect_processes py r state processes).0
        × All (Accepts py iso tenant_id device_id) (collect_network py r state connections).0
        × All (Accepts py iso tenant_id device_id) (collect_files r state stats).0
        × All (Accepts py iso tenant_id device_id) (collect_win_persistence r windows state read).0
        × All (Accepts py iso tenant_id device_id) (collect_auth m linux log saved).0
  collectors-Accepts r m ht hm state processes connections stats windows linux read log saved = (
    collect_processes-Accepts r ht state processes,
    collect_network-Accepts r ht state connections,
    collect_files-Accepts r ht state stats,
    collect_win_persistence-Accepts r ht windows state read,
    collect_auth-Accepts m hm linux log saved,
  )
