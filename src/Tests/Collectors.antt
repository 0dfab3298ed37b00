-- ===== src/Tests/Collectors.antt =====
-- The collectors of the sensor at work: files, Run values and connections over a few scans.
use ai_soc.Prelude.{
  String, ℕ, ◌≡◌, refl, true, Option, none, some, List, [], ◌∷◌, ◌++◌, map, length, All, arith,
}
use Prim.Native.Nat.{◌≤◌}
use ai_soc.Ingest.{Received, validate_event}
use ai_soc.Detection.Rules.{rule_persistence_change}
use ai_soc.Sensor.Snapshots.{Change, created}
use ai_soc.Sensor.Snapshots.Changes.{changes_of, difference}
use ai_soc.Sensor.Collectors.{
  CollectorState, new_state, Readings, Process, Connection, collect_processes,
}
use ai_soc.Sensor.Collectors.Connections.{
  conn_key, seen, max_conns, collect_network, take_conns, take_conn, take_far, take_new, remember,
}
use ai_soc.Sensor.Collectors.Files.{
  same_stat, file_event, collect_files, run_event, path_of, collect_win_persistence,
}
use ai_soc.Sensor.Collectors.Scans.{
  answer_for, collect_files-exact, user_key, machine_key, Listing, reads, run_difference,
  collect_win_persistence-exact,
}
use ai_soc.Sensor.Collectors.Keys.{Distinct}
use ai_soc.Sensor.Collectors.Network.{polls, all_far_keys, polls_once}
use ai_soc.Sensor.Collectors.Auth.{Matching, AuthLog, collect_auth}
use ai_soc.Sensor.Collectors.Kinds.{Accepts}
use ai_soc.Sensor.Collectors.Accepted.{collectors-Accepts}
use ai_soc.Sensor.Collectors.Detected.{stored_event, Reported, run_event-Reported}
use ai_soc.Tests.Data.{plain}

abbrev readings : Readings
readings = record {
  now_iso = λ name. "2026-01-01T00:00:00Z";
  sha256_file = λ path. some "hash";
  sha256 = λ s. "hash";
}

abbrev before : List (String × Option (ℕ × ℕ))
before =
    ("/etc/passwd", some (10, 200)) ∷ ("/etc/cron.d/job", some (11, 5)) ∷ ("/etc/shadow", none) ∷ []

abbrev after : List (String × Option (ℕ × ℕ))
after = ("/etc/passwd", some (20, 210)) ∷ ("/etc/cron.d/job", none) ∷ ("/etc/shadow", none) ∷ []

collect_files-exact_example :
    (cs : List (Change (ℕ × ℕ))) × ((collect_files readings
        (collect_files readings new_state before).1
        after).0
      ≡ map (file_event readings) cs)
    × ((p : String)
        → changes_of p cs ≡ difference same_stat p (answer_for p before) (answer_for p after))
collect_files-exact_example = collect_files-exact readings new_state before after

abbrev autorun : Listing
autorun = some (("OneDrive", "onedrive.exe") ∷ [])

abbrev implanted : Listing
implanted = some (("OneDrive", "onedrive.exe") ∷ ("Updater", "evil.exe") ∷ [])

collect_win_persistence-exact_example :
    (ucs : List (Change String)) × (mcs : List (Change String)) × ((collect_win_persistence readings
        true
        (collect_win_persistence readings true new_state (reads autorun none)).1
        (reads implanted autorun)).0
      ≡ map (run_event readings user_key) ucs ++ map (run_event readings machine_key) mcs)
    × ((p : String)
        → (changes_of p ucs ≡ run_difference p autorun implanted)
          × (changes_of p mcs ≡ run_difference p none autorun))
collect_win_persistence-exact_example =
    collect_win_persistence-exact readings new_state autorun none implanted autorun

abbrev connection : Connection
connection = record {
  pid = some 42;
  kind = 1;
  laddr = some ("10.0.0.5", 50000);
  raddr = some ("203.0.113.9", 443);
  status = "ESTABLISHED";
}

abbrev listening : Connection
listening = record connection { raddr = none }

abbrev answers : List (Option (List Connection))
answers = some (connection ∷ listening ∷ []) ∷ none ∷ some (connection ∷ []) ∷ []

few_events : length ((polls plain readings new_state answers).0) ≤ max_conns
unfolding polls collect_network take_conns take_conn take_far take_new remember conn_key
few_events = omega arith

polls_once_example :
    Distinct ((polls plain readings new_state answers).1.conns)
    × (length ((polls plain readings new_state answers).1.conns)
        ≡ length ((polls plain readings new_state answers).0))
    × ((k : _)
        → seen k ((polls plain readings new_state answers).1.conns)
          ≡ seen k (all_far_keys plain answers))
polls_once_example = polls_once plain readings answers few_events

abbrev matching : Matching
matching = record {
  search = λ pattern line. some ("root", some "203.0.113.9");
  address_like = λ s. true;
  now_iso = λ line. "2026-01-01T00:00:00Z";
}

abbrev auth_log : AuthLog
auth_log = record {
  size = some 100;
  read_from = λ offset. some ("sshd: Failed password" ∷ [], 100);
}

abbrev process : Process
process = record {
  pid = some 42;
  ppid = some 1;
  name = some "sh";
  exe = some "/bin/sh";
  cmdline = some ("sh" ∷ []);
  username = some "root";
  started_at = none;
}

abbrev running : CollectorState
running = record new_state {
  baselined_processes = true;
  baselined_files = true;
  run_baselined = true;
}

collectors-Accepts_example :
    All
      (Accepts plain (λ s. some 5) 1 "laptop")
      (collect_processes plain readings running (some (process ∷ []))).0
    × All
        (Accepts plain (λ s. some 5) 1 "laptop")
        (collect_network plain readings running (some (connection ∷ []))).0
    × All (Accepts plain (λ s. some 5) 1 "laptop") (collect_files readings running before).0
    × All
        (Accepts plain (λ s. some 5) 1 "laptop")
        (collect_win_persistence readings true running (reads autorun none)).0
    × All (Accepts plain (λ s. some 5) 1 "laptop") (collect_auth matching true auth_log 0).0
collectors-Accepts_example =
    collectors-Accepts plain (λ s. some 5) 1 "laptop" (λ s h. refl) readings matching
      (λ name. (refl, 5, refl)) (λ line. (refl, 5, refl)) running (some (process ∷ []))
      (some (connection ∷ [])) before true true (reads autorun none) auth_log 0

abbrev implant : Change String
implant = record { name = "Updater"; action = created; now = some "evil.exe" }

run_event-Reported_example :
    (e : Received) × (validate_event plain
        (λ s. some 5)
        1
        "laptop"
        (run_event readings "hkcu\\currentversion\\run" implant)
      ≡ some e)
    × Reported
        (path_of "hkcu\\currentversion\\run" "Updater")
        created
        (rule_persistence_change plain (stored_event "e1" e))
run_event-Reported_example =
    run_event-Reported plain (λ s. some 5) 1 "laptop" (λ s h. refl) readings
      "hkcu\\currentversion\\run" implant "e1" tt refl (refl, 5, refl)
