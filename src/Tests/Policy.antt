-- ===== src/Tests/Policy.antt =====
-- The response policy at work on a command-and-control alert.
use ai_soc.Prelude.{◌≡◌, ◌≢◌, String, some}
use ai_soc.Store.{raised, answer}
use ai_soc.Response.Policy.{evaluate}
use ai_soc.Response.Policy.Safety.{Grew, Authorised, evaluate-Authorised}
use ai_soc.Response.Policy.Modes.{SameActions, evaluate-fails_closed}
use ai_soc.Response.Policy.Dedup.{evaluate_twice}
use ai_soc.Tests.Data.{plain, c2_alert, store, store_in}

evaluate-Authorised_example :
    Grew (Authorised plain store c2_alert) store (evaluate plain store c2_alert).1
evaluate-Authorised_example = evaluate-Authorised plain store c2_alert

evaluate-fails_closed_example :
    SameActions (store_in raised) (evaluate plain (store_in raised) c2_alert).1
evaluate-fails_closed_example =
    evaluate-fails_closed plain (store_in raised) c2_alert raised_mode raised_mode
  where
    raised_mode : {s : String} → raised ≢ answer (some s)
    raised_mode h = cc

evaluate_twice_example :
    (evaluate plain (evaluate plain store c2_alert).1 c2_alert).1.commands
    ≡ (evaluate plain store c2_alert).1.commands
evaluate_twice_example = evaluate_twice plain store c2_alert
