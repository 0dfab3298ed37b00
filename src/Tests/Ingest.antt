-- ===== src/Tests/Ingest.antt =====
-- A batch with an event that is not valid, and a spool of more than a thousand events.
use Prim.Native.Nat.{◌<◌}
use ai_soc.Prelude.{
  ℕ, zero, suc, String, ◌≡◌, refl, ◌⊎◌, none, some, List, [], ◌∷◌, ◌++◌, length, arith,
}
use ai_soc.Json.{text, obj, arr, nil, cons, Fields, end, field, get}
use ai_soc.Ingest.{Telemetry, max_batch, ingest_events}
use ai_soc.Ingest.Answers.{Declined, TakenIn, device_of, events_of, ingest_events_answers}
use ai_soc.Sensor.Spool.{contents, read_lines, Spool}
use ai_soc.Sensor.Spool.Delivery.{collected}
use ai_soc.Sensor.Spool.Oversized.{run_online, run_online_stuck}
use ai_soc.Tests.Data.{plain}
use ai_soc.Tests.Sensor.{codec, online, online-Working}

abbrev telemetry : Telemetry
telemetry = record {
  now = 100000;
  agents = record { tenant_id = 1; device_id = "laptop"; last_seen_at = none } ∷ [];
  events = [];
}

-- the second event has no section
abbrev body : Fields
body = field "device_id" (text "laptop") (
    field "events"
      (arr (
        cons
          (obj (
            field "event_type" (text "dns")
              (field "observed_at" (text "2026-01-01") (field "dns" (obj end) end))))
          (cons (obj (field "event_type" (text "dns") end)) nil)))
      end)

ingest_events_answers_example :
    Declined plain
      (λ s. some 95000)
      1
      telemetry
      (ingest_events plain (λ s. some 95000) 1 telemetry body)
    ⊎ TakenIn plain
        (λ s. some 95000)
        1
        telemetry
        (device_of plain body)
        (events_of (get "events" body))
        (ingest_events plain (λ s. some 95000) 1 telemetry body)
ingest_events_answers_example = ingest_events_answers plain (λ s. some 95000) 1 telemetry body

abbrev lines : ℕ → List String
lines zero = []
lines (suc n) = String.◌∷◌ "e" "login" ∷ lines n

length-lines : (n : ℕ) → length (read_lines codec (lines n)) ≡ n
unfolding read_lines
length-lines zero = refl
length-lines (suc n) = omega (arith, length-lines n)

abbrev full_spool : Spool
full_spool = some (lines 1001)

full_spool_large : max_batch < length (contents codec full_spool)
unfolding contents read_lines
full_spool_large = omega (arith, length-lines 1001)

run_online_stuck_example :
    ((run_online codec text (λ s. some 95000) 1 "laptop" ((telemetry, online) ∷ []) full_spool).0
      ≡ [])
    × (contents codec
          (run_online codec text
            (λ s. some 95000)
            1
            "laptop"
            ((telemetry, online) ∷ [])
            full_spool).1
        ≡ contents codec full_spool ++ collected (online ∷ []))
run_online_stuck_example =
    run_online_stuck codec text (λ s. some 95000) 1 "laptop" ((telemetry, online) ∷ [])
      (online-Working, tt) full_spool full_spool_large
