-- ===== src/Tests/Queue.antt =====
-- A sensor fetches its commands and acknowledges them.
use ai_soc.Prelude.{◌≡◌, refl, ◌≤◌, List, [], ◌∷◌, All, some, ℕ, String, arith}
use ai_soc.Json.{end}
use ai_soc.Store.{DeviceCommand, delivered, acked, Db}
use ai_soc.Response.Queue.{poll_commands, ack_command, ok, err, conflict, offered}
use ai_soc.Response.Queue.Lifecycle.{HandedOut, poll-HandedOut}
use ai_soc.Response.Queue.Progress.{Answered, RowByRow, ack-Progress, ack_answered}
use ai_soc.Tests.Data.{store, kill_command, answered_command}

abbrev agents : List (ℕ × String)
agents = (1, "laptop") ∷ []

abbrev handed_out : DeviceCommand
handed_out = record kill_command { status = delivered }

abbrev polled_store : Db
polled_store = record store { commands = handed_out ∷ answered_command ∷ [] }

polled : poll_commands agents store 1 "laptop" ≡ ok (handed_out ∷ [], polled_store)
unfolding poll_commands offered
polled = refl

abbrev acked_store : Db
acked_store = record polled_store {
  commands =
      record handed_out { status = acked; acked_at = some 100000; result = some end }
      ∷ answered_command
      ∷ [];
}

acknowledged : ack_command polled_store 1 3 "acked" end ≡ ok acked_store
unfolding ack_command
acknowledged = refl

poll-HandedOut_example : All (HandedOut 1 "laptop") (handed_out ∷ []) × (1 ≤ 50)
poll-HandedOut_example =
    poll-HandedOut agents store polled_store 1 "laptop" (handed_out ∷ []) polled

ack-Progress_example :
    RowByRow (Answered 1 3 100000 "acked" end) polled_store.commands acked_store.commands
ack-Progress_example =
    ack-Progress polled_store acked_store 1 3 "acked" end ((ground arith, tt), (tt, tt))
      acknowledged

answered_again : ack_command store 1 4 "failed" end ≡ err conflict
answered_again = ack_answered store 1 4 "failed" end answered_command (λ h. cc) refl refl
