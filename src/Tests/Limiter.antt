-- ===== src/Tests/Limiter.antt =====
-- Requests to the login within a minute.
use ai_soc.Prelude.{ℕ, ◌≡◌, not, ◌&&◌, List, [], ◌∷◌, length, keep, ltb, arith}
use ai_soc.Platform.Limiter.{
  Call, check, is_blocked, recent, max_requests, check_request, fresh_limiter,
}
use ai_soc.Platform.Limiter.Window.{run_calls, granted_at, check_request-window}
use ai_soc.Tests.Data.{plain}

abbrev logins : List (ℕ × Call)
logins =
    (1, check "ann" "analyst" "/api/auth/login")
    ∷ (2, check "ann" "analyst" "/api/auth/login")
    ∷ (70, check "ann" "analyst" "/api/auth/login")
    ∷ []

check_request-window_example :
    (check_request plain 80 "ann" "analyst" "/api/auth/login"
      (run_calls plain logins fresh_limiter []).0).0
    ≡ (not (is_blocked ((run_calls plain logins fresh_limiter []).0.blocked_users "ann") 80)
        && ltb
            (length (
              keep
                (recent 80)
                (granted_at "ann" "/api/auth/login" (run_calls plain logins fresh_limiter []).1)))
            (max_requests plain "analyst" "/api/auth/login"))
check_request-window_example =
    check_request-window plain logins 80 "ann" "analyst" "/api/auth/login"
      (omega arith, (omega arith, (omega arith, omega arith)))
