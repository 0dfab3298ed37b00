-- ===== src/Platform/Sessions.antt =====
-- backend/app/auth/session_manager.py. Session ids come from `uuid4`, so the new id is an argument.
pub mod Limits
use ai_soc.Prelude.{
  ℕ, zero, suc, ◌+◌, ◌-◌, ◌≤◌, ◌<◌, String, ◌≡◌, refl, Bool, true, false, not, Option, none, some,
  List, [], ◌∷◌, ◌++◌, arith, ltb, leb, if◌then◌else◌, length, length-append, str_eq, keep, or_else,
  mem_str,
}
use ai_soc.Prelude.Assoc.{Assoc, lookup, insert, remove}
use ai_soc.Python.{Python}

pub record Session : Type 0 where
  pub session_id : String
  pub user_id : String
  pub username : String
  pub role : String
  pub tenant : String
  pub ip_address : String
  pub user_agent : String
  pub created_at : ℕ
  pub last_active : ℕ

abbrev pub default_concurrent_limits : Assoc ℕ
default_concurrent_limits =
    ("soc_analyst", 3) ∷ ("analyst", 3) ∷ ("soc_manager", 5) ∷ ("manager", 5) ∷ ("admin", 10) ∷ []

pub record SessionManager : Type 0 where
  pub sessions : Assoc Session
  pub user_sessions : Assoc (List String)

pub limit_of : Python → String → ℕ
unfolding lookup
limit_of py role = or_else (lookup (py.lower role) default_concurrent_limits) 5

-- `while len(sids) >= limit`: a limit is positive, so the list does not run out before the loop ends
unfoldable pub evict : ℕ → List String → Assoc Session → List String × Assoc Session
unfolding remove
evict limit [] sessions = ([], sessions)
evict limit (oldest ∷ sids) sessions =
    let popped = evict limit sids (remove oldest sessions) in
    if leb limit (suc (length sids)) then popped else (oldest ∷ sids, sessions)

module _ (py : Python) where
  pub create_session :
      ℕ
      → String
      → SessionManager
      → String
      → String
      → String
      → String
      → String
      → String
      → Session × SessionManager
  unfolding evict insert limit_of lookup
  create_session now session_id m user_id username role tenant ip_address user_agent =
      let session : Session = record {
        session_id = session_id;
        user_id = user_id;
        username = username;
        role = role;
        tenant = tenant;
        ip_address = ip_address;
        user_agent = user_agent;
        created_at = now;
        last_active = now;
      } in
      let (sids, sessions) =
        evict (limit_of py role) (or_else (lookup user_id m.user_sessions) []) m.sessions in
      (
        session,
        record {
          sessions = insert session_id session sessions;
          user_sessions = insert user_id (sids ++ session_id ∷ []) m.user_sessions;
        },
      )

pub get_session : SessionManager → String → Option Session
unfolding lookup
get_session m session_id = lookup session_id m.sessions

-- the ids that still have a session
unfoldable pub live : Assoc Session → List String → List Session
unfolding lookup
live sessions [] = []
live sessions (sid ∷ sids) = elim (lookup sid sessions) [
  | none ↦ live sessions sids
  | some s ↦ s ∷ live sessions sids
]

pub list_active_sessions : SessionManager → String → List Session
unfolding live lookup
list_active_sessions m user_id = live m.sessions (or_else (lookup user_id m.user_sessions) [])

abbrev without : String → List String → List String
without session_id = keep (λ sid. not (str_eq sid session_id))

abbrev forget : String → String → Assoc (List String) → Assoc (List String)
unfolding lookup insert
forget session_id user_id m = elim (lookup user_id m) [
  | none ↦ m
  | some sids ↦ insert user_id (without session_id sids) m
]

pub terminate_session : SessionManager → String → Bool × SessionManager
unfolding lookup remove insert
terminate_session m session_id = elim (lookup session_id m.sessions) [
  | none ↦ (false, m)
  | some s ↦ (
    true,
    record {
      sessions = remove session_id m.sessions;
      user_sessions = forget session_id s.user_id m.user_sessions;
    },
  )
]
