-- ===== src/Tests/Services.antt =====
-- The services and the playbooks at work.
use mathlib.Core.List.{Memᴰ}
use ai_soc.Prelude.{
  ℕ, ◌≤◌, ◌+◌, String, ◌≡◌, refl, inl, true, false, some, List, [], ◌∷◌, ◌++◌, length, All, str_eq,
  arith, ◌⊎◌, str_append, join_with,
}
use ai_soc.Prelude.Assoc.{Assoc, lookup}
use ai_soc.Platform.Breaker.{CircuitBreaker, closed, open_circuit, call_all}
use ai_soc.Platform.Breaker.Circuit.{IsSound, call_all-IsSound}
use ai_soc.Platform.Cache.{LruCache, set, get}
use ai_soc.Platform.Cache.Bounded.{get-set}
use ai_soc.Platform.Access.{has_permission, Zones, allowed, can_access_resource}
use ai_soc.Platform.Sessions.{
  Session, SessionManager, limit_of, create_session, get_session, list_active_sessions,
}
use ai_soc.Platform.Sessions.Limits.{Limited, ids_of, create_session-Limited}
use ai_soc.Platform.AuditLog.{
  AuditRow, Hashing, genesis, log_event, verify_chain_integrity, new_row,
}
use ai_soc.Soar.Playbooks.{
  Step, playbooks, malware, PlaybookEngine, pending_approval, execute_playbook, approve_action,
  executed, invalid, target_of, Execution,
}
use ai_soc.Soar.Playbooks.Approvals.{
  Automatic, executed_of, execute_playbook-Automatic, execute_playbook-approve,
}
use ai_soc.Tests.Data.{plain}

abbrev breaker : CircuitBreaker
breaker = record {
  failure_threshold = 2;
  recovery_timeout = 60;
  circuit = closed;
  failure_count = 0;
  last_failure_time = 0;
  total_calls = 0;
  total_successes = 0;
  total_failures = 0;
}

-- a function that counts its calls and always raises
abbrev raising : ℕ → (String ⊎ ℕ) × ℕ
raising w = (inl "refused", w + 1)

abbrev calls : List (ℕ × ℕ × (ℕ → (String ⊎ ℕ) × ℕ))
calls = (1, 2, raising) ∷ (3, 4, raising) ∷ (5, 6, raising) ∷ []

call_all-IsSound_example : IsSound (call_all calls breaker 0).1
call_all-IsSound_example = call_all-IsSound calls breaker 0 (record {
  positive = omega arith;
  accounted = refl;
  counted = omega arith;
  tripped = omega arith;
})

abbrev tripped_breaker : CircuitBreaker
tripped_breaker = record breaker {
  circuit = open_circuit;
  failure_count = 2;
  last_failure_time = 4;
}

abbrev cache : LruCache ℕ
cache = record { max_size = 1; entries = ("a", (1, 50)) ∷ [] }

get-set_example : (get 69 (set 10 cache "b" 2 60) "b").0 ≡ some 2
get-set_example = get-set 10 69 60 cache "b" 2 (omega arith) (omega arith)

admin_manages : has_permission plain "admin" "manage_users" ≡ true
unfolding has_permission
admin_manages = refl

abbrev zones : Zones
zones = ("ann", "lab" ∷ []) ∷ []

ann_reads : can_access_resource plain zones "ann" "analyst" (some "lab") "read_alerts" ≡ allowed
unfolding can_access_resource
ann_reads = refl

abbrev session : String → Session
session sid = record {
  session_id = sid;
  user_id = "ann";
  username = "Ann";
  role = "analyst";
  tenant = "t";
  ip_address = "10.0.0.1";
  user_agent = "x";
  created_at = 1;
  last_active = 1;
}

abbrev manager : SessionManager
manager = record {
  sessions = ("s1", session "s1") ∷ ("s2", session "s2") ∷ ("s3", session "s3") ∷ [];
  user_sessions = ("ann", "s1" ∷ "s2" ∷ "s3" ∷ []) ∷ [];
}

create_session-Limited_example :
    let out = create_session plain 5 "s4" manager "ann" "Ann" "analyst" "t" "10.0.0.1" "x" in
    Limited
      (limit_of plain "analyst")
      "s4"
      (ids_of manager "ann")
      (ids_of out.1 "ann")
      manager
      out.1
    × (length (list_active_sessions out.1 "ann") ≤ limit_of plain "analyst")
    × (get_session out.1 "s4" ≡ some out.0)
    × ((u : String)
        → str_eq "ann" u ≡ false
        → lookup u out.1.user_sessions ≡ lookup u manager.user_sessions)
create_session-Limited_example =
    create_session-Limited plain 5 "s4" manager "ann" "Ann" "analyst" "t" "10.0.0.1" "x"

abbrev hashing : Hashing
hashing = record { sha256_hex = λ s. s; time_text = λ t. "0" }

abbrev first_log : List AuditRow
first_log = (log_event hashing "e1" 5 [] "user_login" "ann" "session" "s1" "login" "ok").1

first_log-verified : (verify_chain_integrity hashing first_log).0 ≡ true
unfolding verify_chain_integrity log_event new_row join_with
first_log-verified = refl

-- a hash that takes every text to the same digest
abbrev constant_hashing : Hashing
constant_hashing = record { sha256_hex = λ s. genesis; time_text = λ t. "0" }

abbrev honest_log : List AuditRow
honest_log = (log_event constant_hashing "e1" 5 [] "user_login" "ann" "session" "s1" "login" "ok").1

abbrev forged_log : List AuditRow
forged_log = (log_event constant_hashing "e1" 5 [] "user_login" "bob" "session" "s1" "login" "ok").1

abbrev second_row : AuditRow
second_row = new_row hashing "e2" 6 first_log "alert_viewed" "ann" "alert" "7" "view" "ok"

both-verified : (verify_chain_integrity hashing (first_log ++ second_row ∷ [])).0 ≡ true
unfolding verify_chain_integrity log_event new_row join_with
both-verified = refl

abbrev engine : PlaybookEngine
engine = record { pending_approvals = [] }

abbrev infected : Assoc String
infected = ("id", "7") ∷ ("host", "laptop") ∷ []

malware_known : lookup "Malware" playbooks ≡ some malware
unfolding lookup
malware_known = refl

execute_playbook-Automatic_example :
    All
      (Automatic infected malware.steps)
      (executed_of (execute_playbook engine "Malware" infected).0)
execute_playbook-Automatic_example =
    execute_playbook-Automatic engine "Malware" infected malware malware_known

abbrev isolated : List Execution
isolated = record { action = "isolate_host"; target = "laptop" } ∷ []

malware_waits :
    (execute_playbook engine "Malware" infected).0 ≡ pending_approval "MW_laptop_7" isolated
unfolding execute_playbook
malware_waits = refl

execute_playbook-approve_example :
    let after = (execute_playbook engine "Malware" infected).1 in
    ((s : Step) × Memᴰ s malware.steps
      × (s.approval_required ≡ true)
      × ((approve_action after "MW_laptop_7").0
          ≡ executed
              (record { action = s.action; target = target_of s.target_from infected })
              (str_append "rb_" "MW_laptop_7")))
    × ((approve_action (approve_action after "MW_laptop_7").1 "MW_laptop_7").0 ≡ invalid)
execute_playbook-approve_example =
    execute_playbook-approve engine "Malware" infected malware "MW_laptop_7" isolated malware_known
      malware_waits
