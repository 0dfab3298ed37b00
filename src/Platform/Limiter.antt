-- ===== src/Platform/Limiter.antt =====
-- backend/app/security/rate_limiter.py: how many requests a user may make to an endpoint in a
-- minute. Time is in seconds, and the headers of the answer are left out.
pub mod Window
use ai_soc.Prelude.{
  ℕ, ◌+◌, ◌*◌, String, Bool, true, false, Option, none, some, List, [], ◌∷◌, ◌++◌, length, keep,
  ltb, leb, if◌then◌else◌, str_eq, or_else, ◌&&◌,
}
use ai_soc.Prelude.Assoc.{Assoc, lookup}
use ai_soc.Python.{Python}

abbrev pub base_limits : Assoc ℕ
base_limits =
    ("/api/auth/login", 5) ∷ ("/api/alerts", 60) ∷ ("/api/incidents", 30) ∷ ("default", 100) ∷ []

abbrev pub role_multipliers : Assoc ℕ
role_multipliers =
    ("admin", 3)
    ∷ ("soc_manager", 2)
    ∷ ("manager", 2)
    ∷ ("soc_analyst", 1)
    ∷ ("analyst", 1)
    ∷ ("default", 1)
    ∷ []

-- `_requests` gives no timestamps for a missing key.
pub record Limiter : Type 0 where
  pub requests : String → String → List ℕ
  pub blocked_users : String → Option ℕ

pub data Call : Type 0 where
  block_user : (user_id : String) (duration_seconds : ℕ) → Call
  check : (user_id role endpoint : String) → Call

abbrev pub set_blocked : String → Option ℕ → Limiter → Limiter
set_blocked user_id until l = record l {
  blocked_users = λ u. if str_eq user_id u then until else l.blocked_users u;
}

abbrev pub set_requests : String → String → List ℕ → Limiter → Limiter
set_requests user_id endpoint times l = record l {
  requests = λ u e. if str_eq user_id u && str_eq endpoint e then times else l.requests u e;
}

-- the answer to the test of the block, and the blocked users with an expired block removed
abbrev pub is_blocked : Option ℕ → ℕ → Bool
is_blocked none now = false
is_blocked (some until) now = ltb now until

abbrev pub unblock : Option ℕ → String → Limiter → Limiter
unblock none user_id l = l
unblock (some until) user_id l = set_blocked user_id none l

-- `ts >= now - 60.0`
abbrev pub recent : ℕ → ℕ → Bool
recent now ts = leb now (ts + 60)

module _ (py : Python) where
  unfoldable pub max_requests : String → String → ℕ
  unfolding lookup
  max_requests role endpoint =
      or_else (lookup endpoint base_limits) 100
      * or_else (lookup (py.lower role) role_multipliers) 1

  -- the timestamps of the key are pruned, and a request within the limit is added
  abbrev pub count_request : ℕ → String → String → String → Limiter → Bool × Limiter
  unfolding max_requests
  count_request now user_id role endpoint l =
      let kept = keep (recent now) (l.requests user_id endpoint) in
      if leb (max_requests role endpoint) (length kept)
      then (false, set_requests user_id endpoint kept l)
      else (true, set_requests user_id endpoint (kept ++ now ∷ []) l)

  unfoldable pub check_request : ℕ → String → String → String → Limiter → Bool × Limiter
  unfolding count_request
  check_request now user_id role endpoint l =
      if is_blocked (l.blocked_users user_id) now
      then (false, l)
      else count_request now user_id role endpoint (unblock (l.blocked_users user_id) user_id l)

  unfoldable pub step : ℕ → Call → Limiter → Bool × Limiter
  unfolding check_request
  step now (block_user user_id duration) l = (false, set_blocked user_id (some (now + duration)) l)
  step now (check user_id role endpoint) l = check_request now user_id role endpoint l

abbrev pub fresh_limiter : Limiter
fresh_limiter = record { requests = λ u e. []; blocked_users = λ u. none }
