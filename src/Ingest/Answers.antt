-- ===== src/Ingest/Answers.antt =====
-- How the ingestion of a batch answers (api/v1/events.py, ingest_events).
use Prim.Native.Nat.{◌≤◌, ◌<◌}
use ai_soc.Prelude.{
  ℕ, ◌+◌, String, ◌≡◌, refl, ap, ◌∙◌, ◌⊎◌, inl, inr, true, Option, List, [], ◌++◌, ltb, length,
  str_eq, any_of, All, Bool-cases, arith,
}
use ai_soc.Json.{Value, text, arr, Fields, get, or_value, items_of}
use ai_soc.Python.{Python}
use ai_soc.Ingest.{
  Received, Telemetry, Response, ingested, status_of, max_batch, validate_all, is_agent,
  ingest_list, ingest_value, ingest_events,
}
use ai_soc.Ingest.Batches.{
  Known, AsSent, has_index, refused_at, length-validated, validated-AsSent, validated-refused_at,
}

-- the events of a body, where it has a list of them
abbrev pub events_of : Value → List Value
events_of (arr events) = items_of events
events_of _ = []

abbrev pub device_of : Python → Fields → String
device_of py body = py.strip (py.str (or_value (get "device_id" body) (text "")))

from_zero : (j : ℕ) → j ≡ 0 + j
from_zero j = omega arith

module _ (py : Python) (iso : String → Option ℕ) (tenant_id : ℕ) (t : Telemetry) where
  -- What holds of a batch that is taken in.
  pub record TakenIn (device_id : String) (events : List Value) (result : Response × Telemetry)
      : Type 0 where
    pub accepted : List Received
    pub errors : List ℕ
    pub response : result.0 ≡ ingested accepted errors
    pub registered : any_of (is_agent tenant_id device_id) t.agents ≡ true
    pub bounded : length events ≤ max_batch
    pub stored : result.1.events ≡ t.events ++ accepted
    pub total : length accepted + length errors ≡ length events
    pub known : All (Known tenant_id device_id) accepted
    pub as_sent : AsSent py iso tenant_id device_id events accepted
    pub refused : (j : ℕ) → has_index j errors ≡ refused_at py iso tenant_id device_id events j

  -- An error, which leaves the tables as they are.
  abbrev pub Declined : Response × Telemetry → Type 0
  Declined result = (400 ≤ status_of result.0) × (result.1 ≡ t)

  list_answers :
      (device_id : String) (events : List Value)
      → Declined (ingest_list py iso tenant_id device_id t events)
        ⊎ TakenIn device_id events (ingest_list py iso tenant_id device_id t events)
  unfolding ingest_list
  list_answers device_id events = elim (Bool-cases (ltb max_batch (length events))) [
    | inl large ↦ rw large (inl (omega arith, refl))
    | inr small ↦ elim (Bool-cases (any_of (is_agent tenant_id device_id) t.agents)) [
      | inr unknown ↦ rw (small, unknown) (inl (omega arith, refl))
      | inl known ↦
          rw (small, known)
            (inr (record {
              accepted = (validate_all py iso tenant_id device_id 0 events).0;
              errors = (validate_all py iso tenant_id device_id 0 events).1;
              response = refl;
              registered = known;
              bounded = ground (arith, small);
              stored = refl;
              total = length-validated py iso tenant_id device_id 0 events;
              known = (validated-AsSent py iso tenant_id device_id 0 events).0;
              as_sent = (validated-AsSent py iso tenant_id device_id 0 events).1;
              refused = λ j.
                  ap (λ k. has_index k (validate_all py iso tenant_id device_id 0 events).1)
                    (from_zero j)
                  ∙ validated-refused_at py iso tenant_id device_id 0 events j;
            }))
    ]
  ]

  value_answers :
      (device_id : String) (v : Value)
      → Declined (ingest_value py iso tenant_id device_id t v)
        ⊎ TakenIn device_id (events_of v) (ingest_value py iso tenant_id device_id t v)
  unfolding ingest_value
  value_answers device_id (arr events) = list_answers device_id (items_of events)
  value_answers device_id _ = inl (omega arith, refl)

  -- The handler either answers with an error status and changes no table, or takes the batch in: its
  -- at most 1000 events are of a registered device of the tenant; after the events that were there it
  -- stores one row for each event that the validation does not refuse, in order, under the tenant and
  -- the device, with a known type and hint; a row has the type, the time, the hint, the section and
  -- the raw object of its own event as they were sent; the accepted and the refused ones add up to
  -- those sent, and the reported indices are exactly the places of the refused events.
  pub ingest_events_answers :
      (body : Fields)
      → Declined (ingest_events py iso tenant_id t body)
        ⊎ TakenIn
            (device_of py body)
            (events_of (get "events" body))
            (ingest_events py iso tenant_id t body)
  unfolding ingest_events
  ingest_events_answers body = elim (Bool-cases (str_eq (device_of py body) "")) [
    | inl missing ↦ rw missing (inl (omega arith, refl))
    | inr given ↦ rw given (value_answers (device_of py body) (get "events" body))
  ]

  -- a batch that is too large is never taken in
  pub too_large_fails :
      (body : Fields)
      → max_batch < length (events_of (get "events" body))
      → 400 ≤ status_of (ingest_events py iso tenant_id t body).0
  too_large_fails body large = elim (ingest_events_answers body) [
    | inl declined ↦ declined.0
    | inr taken ↦ elim (contradiction _ _ large taken.bounded) [ ]
  ]
    where
      contradiction : (m n : ℕ) → m < n → n ≤ m → ⊥
      contradiction m n h k = omega (arith, h, k)
