-- ===== src/Sensor/Commands/Safety.antt =====
-- What a command can make the sensor do to its endpoint (edysor_sensor.py, the command channel).
use ai_soc.Prelude.{
  String, ◌≡◌, refl, inl, inr, false, ◌||◌, Option, none, some, List, [], ◌∷◌, str_eq, eq_iff,
  mem_str, is_infix, All, arith, subst, Bool-cases,
}
use ai_soc.Json.{Value, text, Fields, get, fields_of}
use ai_soc.Python.{Python}
use ai_soc.Sensor.Commands.{
  command_actions, is_system_path, quarantine_resolved, quarantine_path_value,
  handle_quarantine_file, handle, Command, execute_command,
}
use ai_soc.Sensor.Endpoint.{
  Platform, win32, linux, other_posix, make_dir, Host, pattern_chars, has_any,
}
use ai_soc.Sensor.Persistence.{
  split_backslash, delete_run_value, remove_run_value, remove_path_value, is_task_name, remove_on,
  handle_remove_persistence, last_of,
}
use ai_soc.Sensor.Persistence.Paths.{
  HasNoBackslash, split_backslash-HasNoBackslash, last_of-HasNoBackslash, path_parts,
}
use ai_soc.Sensor.Commands.Permits.{
  Permitted, make_quarantine, quarantine, delete_task, delete_run, handle_block_ip-Permitted,
  handle_kill_process-Permitted,
}

module _ (py : Python) (host : Host) (params : Fields) where
  resolved-Permitted :
      (path : String) (o : Option String)
      → get "path" params ≡ text path
      → has_any pattern_chars path ≡ false
      → host.resolve path ≡ o
      → All (Permitted py host params "quarantine_file") (quarantine_resolved py host o).1
  resolved-Permitted path none e p r = tt
  resolved-Permitted path (some resolved) e p r = elim (Bool-cases (host.is_file resolved)) [
    | inr missing ↦ rw missing tt
    | inl file ↦ elim (Bool-cases (is_system_path py host resolved)) [
      | inl system ↦ rw (file, system) tt
      | inr plain ↦ elim (Bool-cases (host.succeeds (make_dir host.quarantine_dir))) [
        | inr full ↦ rw (file, plain, full) (make_quarantine, tt)
        | inl made ↦
            rw (file, plain, made)
              (make_quarantine, (quarantine path resolved e p r file plain, tt))
      ]
    ]
  ]

  path-Permitted :
      (v : Value)
      → get "path" params ≡ v
      → All (Permitted py host params "quarantine_file") (quarantine_path_value py host v).1
  path-Permitted (text s) e = elim (Bool-cases (str_eq s "" || has_any pattern_chars s)) [
    | inl bad ↦ rw bad tt
    | inr exact ↦ rw exact (resolved-Permitted s (host.resolve s) e (ground (arith, exact)) refl)
  ]
  path-Permitted _ e = tt

  handle_quarantine_file-Permitted :
      All (Permitted py host params "quarantine_file") (handle_quarantine_file py host params).1
  unfolding handle_quarantine_file
  handle_quarantine_file-Permitted = path-Permitted (get "path" params) refl

  delete-Permitted :
      (path root key sub : String) (rest : List String)
      → split_backslash path ≡ root ∷ key ∷ sub ∷ rest
      → host.platform ≡ win32
      → get "path" params ≡ text path
      → All
          (Permitted py host params "remove_persistence")
          (delete_run_value py host path root (key ∷ sub ∷ rest)).1
  unfolding delete_run_value
  delete-Permitted path root key sub rest split os e =
      let value = last_of "" (key ∷ sub ∷ rest) in
      let parts : All HasNoBackslash (root ∷ key ∷ sub ∷ rest) =
        subst (All HasNoBackslash) split (split_backslash-HasNoBackslash path) in
      elim (Bool-cases (mem_str root ("HKCU" ∷ "HKLM" ∷ []))) [
        | inr other ↦ rw other tt
        | inl known ↦ elim (Bool-cases (is_infix "currentversion\\run" (py.lower path))) [
          | inr elsewhere ↦ rw (known, elsewhere) tt
          | inl run_key ↦ elim (Bool-cases (str_eq value "" || has_any pattern_chars value)) [
            | inl bad ↦ rw (known, run_key, bad) tt
            | inr exact ↦
                rw (known, run_key, exact)
                  (
                    delete_run path root _ value os e run_key
                        (path_parts path root key sub rest split) known
                        (ground (arith, exact, eq_iff value ""))
                        (last_of-HasNoBackslash "" (key ∷ sub ∷ rest) tt parts.1)
                        (ground (arith, exact)),
                    tt,
                  )
          ]
        ]
      ]

  run_value-Permitted :
      (path : String) (parts : List String)
      → split_backslash path ≡ parts
      → host.platform ≡ win32
      → get "path" params ≡ text path
      → All (Permitted py host params "remove_persistence") (remove_run_value py host path parts).1
  unfolding remove_run_value
  run_value-Permitted path [] split os e = tt
  run_value-Permitted path (root ∷ []) split os e = tt
  run_value-Permitted path (root ∷ key ∷ []) split os e = tt
  run_value-Permitted path (root ∷ key ∷ sub ∷ rest) split os e =
      delete-Permitted path root key sub rest split os e

  path_value-Permitted :
      (v : Value)
      → host.platform ≡ win32
      → get "path" params ≡ v
      → All (Permitted py host params "remove_persistence") (remove_path_value py host v).1
  unfolding remove_path_value
  path_value-Permitted (text path) os e = elim (Bool-cases (str_eq path "")) [
    | inl empty ↦ rw empty tt
    | inr filled ↦ elim (Bool-cases host.has_winreg) [
      | inr missing ↦ simp (filled, missing) tt
      | inl there ↦ simp (filled, there) (run_value-Permitted path (split_backslash path) refl os e)
    ]
  ]
  path_value-Permitted _ os e = tt

  remove-Permitted :
      (os : Platform)
      → host.platform ≡ os
      → All (Permitted py host params "remove_persistence") (remove_on py host os params).1
  unfolding handle_remove_persistence
  remove-Permitted win32 os = elim (Bool-cases (is_task_name (get "task_name" params))) [
    | inl task ↦ rw task (delete_task os task, tt)
    | inr other ↦ rw other (path_value-Permitted (get "path" params) os refl)
  ]
  remove-Permitted linux os = tt
  remove-Permitted other_posix os = tt

  handle_remove_persistence-Permitted :
      All
        (Permitted py host params "remove_persistence")
        (handle_remove_persistence py host params).1
  unfolding handle_remove_persistence
  handle_remove_persistence-Permitted = remove-Permitted host.platform refl

  handle-Permitted :
      (action : String) → All (Permitted py host params action) (handle py host action params).1
  unfolding handle
  handle-Permitted action = elim (Bool-cases (mem_str action command_actions)) [
    | inr unknown ↦ rw unknown tt
    | inl known ↦ elim (Bool-cases (str_eq action "kill_process")) [
      | inl kills ↦
          let e = (eq_iff action "kill_process").0 kills in
          rw e (handle_kill_process-Permitted py host params)
      | inr a ↦ elim (Bool-cases (str_eq action "block_ip")) [
        | inl blocks ↦
            let e = (eq_iff action "block_ip").0 blocks in
            rw e (handle_block_ip-Permitted py host params)
        | inr b ↦ elim (Bool-cases (str_eq action "quarantine_file")) [
          | inl moves ↦
              let e = (eq_iff action "quarantine_file").0 moves in
              rw e handle_quarantine_file-Permitted
          | inr c ↦
              let e : action ≡ "remove_persistence" = ground (
                arith,
                known,
                eq_iff "kill_process" action,
                eq_iff "block_ip" action,
                eq_iff "quarantine_file" action,
                eq_iff "remove_persistence" action,
                eq_iff action "kill_process",
                eq_iff action "block_ip",
                eq_iff action "quarantine_file",
              ) in
              rw e handle_remove_persistence-Permitted
        ]
      ]
    ]
  ]

-- Whatever command the backend sends and whatever the endpoint answers, each thing that the sensor
-- does is permitted to the action of the command: a kill goes to the pid or exact name in the
-- params, and a pid given with an accepted name still runs under that name; a firewall rule is for
-- the public address in the params; a moved file is an existing one outside the system directories
-- that an exact path names; a deleted registry value has an exact name without a backslash, and it,
-- its key and its root, HKCU or HKLM, make up the path in the params, which names a Run key. Any other
-- action does nothing to the endpoint and is acknowledged as failed.
pub execute_command-Permitted :
    (py : Python) (host : Host) (cmd : Command)
    → All (Permitted py host (fields_of cmd.params) cmd.action) (execute_command py host cmd).1
      × (mem_str cmd.action command_actions ≡ false
          → execute_command py host cmd ≡ (record { id = cmd.id; status = "failed" }, []))
unfolding execute_command handle
execute_command-Permitted py host cmd =
    (handle-Permitted py host (fields_of cmd.params) cmd.action, λ unknown. rw unknown)
