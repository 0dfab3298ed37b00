-- ===== src/Tests/Sensor.antt =====
-- The sensor at work: a Linux endpoint, and cycles that go offline and back.
use Prim.Native.String.{String}
use ai_soc.Prelude.{
  any_of, ltb, length, ◌==◌, ◌&&◌, ℕ, ◌≡◌, refl, ap, ◌∙◌, inl, inr, Bool-cases, eq_iff, Bool, true,
  false, Option, none, some, [], ◌∷◌, ◌++◌, All, mem_str, str_eq,
}
use ai_soc.Json.{text, int, pos, end, field, obj, fields_of}
use ai_soc.Response.Policy.{propose_actions}
use ai_soc.Sensor.Commands.{Command, command_actions, execute_command, handle, handle_kill_process}
use ai_soc.Sensor.Endpoint.{Host, linux, running}
use ai_soc.Sensor.Commands.Permits.{Permitted}
use ai_soc.Sensor.Commands.Safety.{execute_command-Permitted}
use ai_soc.Sensor.Commands.Agreement.{Accepted, propose_actions-Accepted}
use ai_soc.Sensor.Spool.{
  Codec, Cycle, written, cut_after, connection_failed, answered, contents, run_cycle, run_cycles,
}
use ai_soc.Sensor.Spool.Settled.{is_refused_at, events_of, AllAccepted}
use ai_soc.Sensor.Spool.Delivery.{
  Working, collected, Unrefused, run_cycles-conserves, run_cycle-catches_up,
}
use ai_soc.Tests.Data.{plain, c2_alert}

abbrev host : Host
host = record {
  platform = linux;
  process = λ pid. running "miner";
  basename = λ s. s;
  succeeds = λ e. true;
  resolve = λ s. some s;
  is_file = λ s. true;
  system_root = "c:\\windows";
  quarantine_dir = "/q";
  quarantine_path = λ s. s;
  has_winreg = false;
}

abbrev stale_kill : Command
stale_kill = record {
  id = 9;
  action = "kill_process";
  params = obj (field "pid" (int (pos 42)) (field "name" (text "shell") end));
}

execute_command-Permitted_example :
    All
      (Permitted plain host (fields_of stale_kill.params) "kill_process")
      (execute_command plain host stale_kill).1
    × (mem_str "kill_process" command_actions ≡ false
        → execute_command plain host stale_kill ≡ (record { id = 9; status = "failed" }, []))
execute_command-Permitted_example = execute_command-Permitted plain host stale_kill

-- the pid belongs to another process by now
stale_kill_refused :
    execute_command plain host stale_kill ≡ (record { id = 9; status = "failed" }, [])
unfolding execute_command handle handle_kill_process
stale_kill_refused = refl

propose_actions-Accepted_example : All (Accepted plain host) (propose_actions plain c2_alert)
propose_actions-Accepted_example = propose_actions-Accepted plain host c2_alert

abbrev drop_first : String → Option String
drop_first String.[] = none
drop_first (String.◌∷◌ c s) = some s

abbrev is_filled : String → Bool
is_filled String.[] = false
is_filled (String.◌∷◌ c s) = true

pub cons_filled : (s : String) → str_eq (String.◌∷◌ "e" s) "" ≡ false
cons_filled s = elim (Bool-cases (str_eq (String.◌∷◌ "e" s) "")) [
  | inr filled ↦ filled
  | inl empty ↦ empty ∙ ap is_filled ((eq_iff (String.◌∷◌ "e" s) "").0 empty)
]

abbrev pub codec : Codec plain String
codec = record {
  dumps = λ e. String.◌∷◌ "e" e;
  loads = drop_first;
  strip-dumps = λ e. refl;
  dumps_filled = cons_filled;
  loads-dumps = λ e. refl;
}

abbrev offline : Cycle String
offline = record {
  events = "login" ∷ "logout" ∷ [];
  registered = false;
  answer = connection_failed;
  readable = true;
  cleared = true;
  write = written;
}

abbrev pub online : Cycle String
online = record offline { events = "start" ∷ []; registered = true; answer = answered 200 [] }

abbrev disk_full : Cycle String
disk_full = record offline { write = cut_after 0 }

offline-Working : Working String offline
offline-Working = record { reads = refl; clears = refl; writes = refl }

pub online-Working : Working String online
online-Working = record { reads = refl; clears = refl; writes = refl }

run_cycles-conserves_example :
    (events_of (run_cycles codec (offline ∷ online ∷ []) none).0
        ++ contents codec (run_cycles codec (offline ∷ online ∷ []) none).1
      ≡ contents codec none ++ collected (offline ∷ online ∷ []))
    × (All (Unrefused String) (offline ∷ online ∷ [])
        → AllAccepted (run_cycles codec (offline ∷ online ∷ []) none).0)
run_cycles-conserves_example =
    run_cycles-conserves codec (offline ∷ online ∷ []) (offline-Working, (online-Working, tt)) none

run_cycle-catches_up_example :
    let before = run_cycles codec (offline ∷ []) none in
    let last = run_cycle codec online before.1 in
    (events_of (before.0 ++ last.0)
      ≡ contents codec none ++ collected (offline ∷ []) ++ "start" ∷ [])
    × (contents codec last.1 ≡ [])
    × ((j : ℕ)
        → is_refused_at last.0 j
          ≡ (any_of (λ k. k == j) [] && ltb j (length (contents codec before.1 ++ "start" ∷ []))))
    × (All (Unrefused String) (offline ∷ [])
        → Unrefused String online
        → AllAccepted (before.0 ++ last.0))
run_cycle-catches_up_example =
    run_cycle-catches_up codec (offline ∷ []) (offline-Working, tt) online online-Working refl refl
      none
