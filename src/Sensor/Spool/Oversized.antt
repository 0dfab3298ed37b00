-- ===== src/Sensor/Spool/Oversized.antt =====
-- A spool that has outgrown the batches of the backend (edysor_sensor.py, run_cycle and send_events;
-- api/v1/events.py, ingest_events).
use Prim.Native.Nat.{◌<◌}
use ai_soc.Prelude.{
  ℕ, String, ◌≡◌, refl, sym, ◌∙◌, ap, subst, false, Option, List, [], ◌∷◌, ◌++◌, map, length,
  length-append, arith, All, Bool-cases, inl, inr,
}
use mathlib.Core.List.{append_assoc, append-nil}
use ai_soc.Json.{Value, text, arr, Items, nil, cons, Fields, end, field, get, items_of}
use ai_soc.Python.{Python}
use ai_soc.Ingest.{Telemetry, Response, ingested, status_of, max_batch, ingest_events}
use ai_soc.Ingest.Answers.{too_large_fails, events_of}
use ai_soc.Sensor.Spool.{
  Codec, Spool, Cycle, Answer, answered, is_ok, Delivered, contents, flush, run_cycle,
}
use ai_soc.Sensor.Spool.Settled.{events_of as delivered_events}
use ai_soc.Sensor.Spool.Delivery.{Working, collected, run_cycle-conserves}

-- `value_of` is the event as a JSON object.
abbrev pub array : {Event : Type 0} → (Event → Value) → List Event → Items
array value_of [] = nil
array value_of (e ∷ es) = cons (value_of e) (array value_of es)

length-array :
    {Event : Type 0} (value_of : Event → Value) (es : List Event)
    → length (items_of (array value_of es)) ≡ length es
length-array value_of [] = refl
length-array value_of (e ∷ es) = omega (arith, length-array value_of es)

-- `{"device_id": …, "events": …}`
abbrev pub batch_body : {Event : Type 0} → (Event → Value) → String → List Event → Fields
batch_body value_of device_id events =
    field "device_id" (text device_id) (field "events" (arr (array value_of events)) end)

abbrev errors_of : Response → List ℕ
errors_of (ingested accepted errors) = errors
errors_of _ = []

longer :
    {Event : Type 0} (xs ys : List Event) → max_batch < length xs → max_batch < length (xs ++ ys)
longer xs ys h = omega (arith, length-append xs ys, h)

module _ {py : Python} {Event : Type 0} (codec : Codec py Event) (value_of : Event → Value)
    (iso : String → Option ℕ) (tenant_id : ℕ) (device_id : String) where
  -- the answer to the batch of a cycle, where the backend is reached with its tables as given
  abbrev pub backend_answer : Telemetry → Cycle Event → Spool → Answer
  unfolding ingest_events contents
  backend_answer t c spool =
      let response =
        (ingest_events py iso tenant_id t
          (batch_body value_of device_id (contents codec spool ++ c.events))).0 in
      answered (status_of response) (errors_of response)

  -- The cycles in turn, each with the tables of the backend that it meets.
  pub run_online : List (Telemetry × Cycle Event) → Spool → List (Delivered Event) × Spool
  unfolding backend_answer run_cycle
  run_online [] spool = ([], spool)
  run_online ((t, c) ∷ cs) spool =
      let (sent, spool') = run_cycle codec (record c { answer = backend_answer t c spool }) spool in
      let (more, last) = run_online cs spool' in (sent ++ more, last)

  flush_unsent :
      (c : Cycle Event) (pending : List Event) (spool : Spool)
      → is_ok c.answer ≡ false
      → (flush codec c pending spool).0 ≡ []
  unfolding flush
  flush_unsent c [] spool h = refl
  flush_unsent c (e ∷ es) spool h = elim (Bool-cases c.registered) [
    | inl known ↦ rw (known, h) refl
    | inr waiting ↦ rw waiting refl
  ]

  run_cycle_unsent :
      (c : Cycle Event) (spool : Spool) → is_ok c.answer ≡ false → (run_cycle codec c spool).0 ≡ []
  unfolding run_cycle
  run_cycle_unsent c spool h = flush_unsent c _ spool h

  oversized_fails :
      (t : Telemetry) (c : Cycle Event) (spool : Spool)
      → max_batch < length (contents codec spool)
      → is_ok (backend_answer t c spool) ≡ false
  unfolding backend_answer
  oversized_fails t c spool large =
      let events = contents codec spool ++ c.events in
      let body = batch_body value_of device_id events in
      let sent : length (events_of (get "events" body)) ≡ length events =
        length-array value_of events in
      let more = longer (contents codec spool) c.events large in
      let fails = too_large_fails py iso tenant_id t body (omega (arith, sent, more)) in
      ground (arith, fails)

  cycle_stays :
      (t : Telemetry) (c : Cycle Event)
      → Working Event c
      → (spool : Spool) → max_batch < length (contents codec spool)
      → let r = run_cycle codec (record c { answer = backend_answer t c spool }) spool in
        (r.0 ≡ []) × (contents codec r.1 ≡ contents codec spool ++ c.events)
  cycle_stays t c w spool large =
      let c' = record c { answer = backend_answer t c spool } in
      let unsent = run_cycle_unsent c' spool (oversized_fails t c spool large) in
      let kept =
        run_cycle-conserves codec c'
          (record { reads = w.reads; clears = w.clears; writes = w.writes }) spool in
      (
        unsent,
        ap (λ sent. delivered_events sent ++ contents codec (run_cycle codec c' spool).1)
              (sym unsent)
            ∙ kept,
      )

  -- Once more events are spooled than a batch of the backend may hold, the cycles in which no call to
  -- the disk fails send nothing ever, with the backend reached each time: every new event joins the
  -- spool, which only grows.
  pub run_online_stuck :
      (cs : List (Telemetry × Cycle Event))
      → All (λ (x : Telemetry × Cycle Event). Working Event x.1) cs
      → (spool : Spool) → max_batch < length (contents codec spool)
      → ((run_online cs spool).0 ≡ [])
        × (contents codec (run_online cs spool).1
            ≡ contents codec spool ++ collected (map (λ (x : Telemetry × Cycle Event). x.1) cs))
  unfolding run_online
  run_online_stuck [] w spool large = (refl, sym (append-nil _))
  run_online_stuck ((t, c) ∷ cs) w spool large =
      let c' = record c { answer = backend_answer t c spool } in
      let spool' = (run_cycle codec c' spool).1 in
      let stays = cycle_stays t c w.0 spool large in
      let still =
        subst (λ (vs : List Event). max_batch < length vs) (sym stays.1)
          (longer (contents codec spool) c.events large) in
      let rest = run_online_stuck cs w.1 spool' still in
      (
        rw (stays.0, rest.0),
        rest.1
            ∙ ap (λ known. known ++ collected (map (λ (x : Telemetry × Cycle Event). x.1) cs))
                stays.1
            ∙ append_assoc (contents codec spool) c.events
                (collected (map (λ (x : Telemetry × Cycle Event). x.1) cs)),
      )
