-- ===== src/Ingest/Batches.antt =====
-- What a batch adds and what it refuses (api/v1/events.py, ingest_events).
use Prim.Native.Nat.{◌<◌}
use ai_soc.Prelude.{
  ℕ, zero, suc, ◌+◌, String, ◌≡◌, refl, ◌∙◌, ap, subst, ◌⊎◌, inl, inr, Bool, true, false, ◌||◌,
  Option, none, some, List, [], ◌∷◌, ◌==◌, length, mem_str, is_none, All, sym, HoldsSome,
  Bool-cases, Option-cases, arith,
}
use ai_soc.Json.{Value, null, end, text, obj, Fields, get, has, truthy}
use ai_soc.Python.{Python}
use ai_soc.Ingest.{
  Received, event_types, severity_hints, member, section_of, event_type_of, severity_of, build,
  section_for, parse_ts, raw_of, validate_event, validate_all,
}

pub record Known (tenant_id : ℕ) (device_id : String) (e : Received) : Type 0 where
  pub tenant : e.tenant_id ≡ tenant_id
  pub device : e.device_id ≡ device_id
  pub kind : mem_str e.event_type event_types ≡ true
  pub hint : mem_str e.severity_hint severity_hints ≡ true

member_given :
    (known : List String) (s : String)
    → HoldsSome (λ k. (mem_str k known ≡ true) × (k ≡ s)) (member known s)
member_given known s = elim (Bool-cases (mem_str s known)) [
  | inl known_one ↦ rw known_one (known_one, refl)
  | inr other ↦ rw other tt
]

-- what a row holds of the raw object
abbrev RawSent : Value → Fields → Type 0
RawSent v fs = (v ≡ obj fs) ⊎ ((v ≡ null) × (fs ≡ end))

raw_given : (v : Value) → HoldsSome (RawSent v) (raw_of v)
raw_given null = inr (refl, refl)
raw_given (obj fs) = inl refl
raw_given _ = tt

given_itself : {A : Type 0} (o : Option A) → HoldsSome (λ a. o ≡ some a) o
given_itself none = tt
given_itself (some a) = refl

abbrev pub has_index : ℕ → List ℕ → Bool
has_index j [] = false
has_index j (i ∷ rest) = (i == j) || has_index j rest

shift : (i j : ℕ) → i + suc j ≡ suc i + j
shift i j = omega arith

module _ (py : Python) (iso : String → Option ℕ) (tenant_id : ℕ) (device_id : String) where
  -- The row says what the sent object says: the type and the hint in lower case and without spaces,
  -- `info` where no hint was sent, the instant that the text of the time names, and the section of
  -- the type and the raw object as they were sent.
  pub record Exactly (event : Fields) (e : Received) : Type 0 where
    pub kind : e.event_type ≡ py.lower (py.strip (py.str (get "event_type" event)))
    pub at : parse_ts py iso (get "observed_at" event) ≡ some e.observed_at
    pub hint :
        has "severity_hint" event ≡ true
        → e.severity_hint ≡ py.lower (py.strip (py.str (get "severity_hint" event)))
    pub no_hint :
        has "severity_hint" event ≡ false
        → e.severity_hint ≡ py.lower (py.strip (py.str (text "info")))
    pub payload : get e.event_type event ≡ obj e.payload
    pub raw : (get "raw" event ≡ obj e.raw) ⊎ ((get "raw" event ≡ null) × (e.raw ≡ end))

  -- The rows are those of the sent events in order, each of its own event, without the refused ones.
  pub data AsSent : List Value → List Received → Type 0 where
    done : AsSent [] []
    taken :
        {vs : List Value} {es : List Received} (event : Fields) (e : Received)
        → Exactly event e
        → AsSent vs es
        → AsSent (obj event ∷ vs) (e ∷ es)
    refused :
        {vs : List Value} {es : List Received} (v : Value)
        → validate_event py iso tenant_id device_id v ≡ none
        → AsSent vs es
        → AsSent (v ∷ vs) es

  abbrev Good : Value → Received → Type 0
  Good (obj event) e = Known tenant_id device_id e × Exactly event e
  Good _ e = ⊥

  abbrev KindSent : Fields → String → Type 0
  KindSent event k =
      (mem_str k event_types ≡ true) × (k ≡ py.lower (py.strip (py.str (get "event_type" event))))

  kind_given :
      (event : Fields) → HoldsSome (KindSent event) (event_type_of py iso (get "event_type" event))
  kind_given event = elim (Bool-cases (truthy (get "event_type" event))) [
    | inl given ↦
        rw given (member_given event_types (py.lower (py.strip (py.str (get "event_type" event)))))
    | inr missing ↦ rw missing tt
  ]

  abbrev hint_of : Value → String
  hint_of v = py.lower (py.strip (py.str v))

  abbrev HintSent : Fields → String → Type 0
  HintSent event h =
      (mem_str h severity_hints ≡ true)
      × (has "severity_hint" event ≡ true → h ≡ hint_of (get "severity_hint" event))
      × (has "severity_hint" event ≡ false → h ≡ hint_of (text "info"))

  hint_given : (event : Fields) → HoldsSome (HintSent event) (severity_of py iso event)
  hint_given event = elim (Bool-cases (has "severity_hint" event)) [
    | inl given ↦
        hint_case event (get "severity_hint" event) (rw given refl) (λ h. refl) (λ h. cc (h, given))
    | inr missing ↦
        hint_case event (text "info") (rw missing refl) (λ h. cc (h, missing)) (λ h. refl)
  ]
    where
      hint_case :
          (event : Fields) (v : Value)
          → severity_of py iso event ≡ member severity_hints (hint_of v)
          → (has "severity_hint" event ≡ true → hint_of v ≡ hint_of (get "severity_hint" event))
          → (has "severity_hint" event ≡ false → hint_of v ≡ hint_of (text "info"))
          → HoldsSome (HintSent event) (severity_of py iso event)
      hint_case event v e h k =
          subst (HoldsSome (HintSent event)) (sym e)
            (elim (Bool-cases (mem_str (hint_of v) severity_hints)) [
              | inl known ↦ rw known (known, h, k)
              | inr other ↦ rw other tt
            ])

  section-Good :
      (event : Fields) (k : String) (at : ℕ) (hint : String) (w : Value) (raw : Option Fields)
      → get k event ≡ w
      → KindSent event k
      → parse_ts py iso (get "observed_at" event) ≡ some at
      → HintSent event hint
      → HoldsSome (RawSent (get "raw" event)) raw
      → HoldsSome
          (Good (obj event))
          (build py iso tenant_id device_id (some k) (some at) (some hint) (section_of w) raw)
  section-Good event k at hint (obj fs) (some raw) e hk ha hh hr = (
    record { tenant = refl; device = refl; kind = hk.0; hint = hh.0 },
    record { kind = hk.1; at = ha; hint = hh.1; no_hint = hh.2; payload = e; raw = hr },
  )
  section-Good event k at hint (obj fs) none e hk ha hh hr = tt
  section-Good event k at hint _ raw e hk ha hh hr = tt

  build-Good :
      (event : Fields) (kind : Option String) (at : Option ℕ) (hint : Option String)
      (raw : Option Fields)
      → HoldsSome (KindSent event) kind
      → HoldsSome (λ t. parse_ts py iso (get "observed_at" event) ≡ some t) at
      → HoldsSome (HintSent event) hint
      → HoldsSome (RawSent (get "raw" event)) raw
      → HoldsSome
          (Good (obj event))
          (build py iso tenant_id device_id kind at hint (section_for py iso kind event) raw)
  build-Good event none at hint raw hk ha hh hr = tt
  build-Good event (some k) none hint raw hk ha hh hr = tt
  build-Good event (some k) (some at) none raw hk ha hh hr = tt
  build-Good event (some k) (some at) (some hint) raw hk ha hh hr =
      section-Good event k at hint (get k event) raw refl hk ha hh hr

  validate_event-Good :
      (v : Value) → HoldsSome (Good v) (validate_event py iso tenant_id device_id v)
  unfolding validate_event
  validate_event-Good (obj event) =
      build-Good event _ _ _ _ (kind_given event)
        (given_itself (parse_ts py iso (get "observed_at" event))) (hint_given event)
        (raw_given (get "raw" event))
  validate_event-Good _ = tt

  -- whether the event at a place is one that the validation refuses
  unfoldable pub refused_at : List Value → ℕ → Bool
  refused_at [] j = false
  refused_at (v ∷ vs) zero = is_none (validate_event py iso tenant_id device_id v)
  refused_at (v ∷ vs) (suc j) = refused_at vs j

  abbrev pub validated : ℕ → List Value → List Received × List ℕ
  validated i vs = validate_all py iso tenant_id device_id i vs

  pub length-validated :
      (i : ℕ) (vs : List Value) → length (validated i vs).0 + length (validated i vs).1 ≡ length vs
  unfolding validate_all
  length-validated i [] = omega arith
  length-validated i (v ∷ vs) = elim (Option-cases (validate_event py iso tenant_id device_id v)) [
    | inl none_left ↦ rw none_left (omega (arith, length-validated (suc i) vs))
    | inr (e, ok) ↦ rw ok (omega (arith, length-validated (suc i) vs))
  ]

  taken_in :
      (v : Value) (vs : List Value) (e : Received) (es : List Received)
      → Good v e
      → AsSent vs es
      → AsSent (v ∷ vs) (e ∷ es)
  taken_in (obj event) vs e es good rest = taken event e good.1 rest
  taken_in _ vs e es good rest = absurd good

  Good-Known : (v : Value) (e : Received) → Good v e → Known tenant_id device_id e
  Good-Known (obj event) e good = good.0
  Good-Known _ e good = absurd good

  pub validated-AsSent :
      (i : ℕ) (vs : List Value)
      → All (Known tenant_id device_id) (validated i vs).0 × AsSent vs (validated i vs).0
  unfolding validate_all
  validated-AsSent i [] = (tt, done)
  validated-AsSent i (v ∷ vs) =
      let rest = validated-AsSent (suc i) vs in
      elim (Option-cases (validate_event py iso tenant_id device_id v)) [
        | inl none_left ↦ rw none_left (rest.0, refused v none_left rest.1)
        | inr (e, ok) ↦
            let good : Good v e = subst (HoldsSome (Good v)) ok (validate_event-Good v) in
            rw ok ((Good-Known v e good, rest.0), taken_in v vs e _ good rest.1)
      ]

  earlier_index : (i : ℕ) (vs : List Value) (j : ℕ) → j < i → has_index j (validated i vs).1 ≡ false
  unfolding validate_all
  earlier_index i [] j h = refl
  earlier_index i (v ∷ vs) j h =
      let rest = earlier_index (suc i) vs j (omega (arith, h)) in
      elim (Option-cases (validate_event py iso tenant_id device_id v)) [
        | inl none_left ↦ rw none_left (ground (arith, rest, h))
        | inr (e, ok) ↦ rw ok rest
      ]

  pub validated-refused_at :
      (i : ℕ) (vs : List Value) (j : ℕ) → has_index (i + j) (validated i vs).1 ≡ refused_at vs j
  unfolding validate_all refused_at
  validated-refused_at i [] j = refl
  validated-refused_at i (v ∷ vs) zero =
      let rest = earlier_index (suc i) vs (i + 0) (omega arith) in
      elim (Option-cases (validate_event py iso tenant_id device_id v)) [
        | inl none_left ↦ rw none_left (ground (arith, rest))
        | inr (e, ok) ↦ rw ok rest
      ]
  validated-refused_at i (v ∷ vs) (suc j) =
      let rest =
        ap (λ k. has_index k (validated (suc i) vs).1) (shift i j)
        ∙ validated-refused_at (suc i) vs j in
      elim (Option-cases (validate_event py iso tenant_id device_id v)) [
        | inl none_left ↦ rw none_left (ground (arith, rest))
        | inr (e, ok) ↦ rw ok rest
      ]
