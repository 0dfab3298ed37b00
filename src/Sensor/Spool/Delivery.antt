-- ===== src/Sensor/Spool/Delivery.antt =====
-- What becomes of the events that the sensor collects (edysor_sensor.py, spool and flush).
use ai_soc.Prelude.{
  any_of, ltb, length, ◌==◌, ℕ, ◌≡◌, inl, inr, refl, sym, ◌∙◌, ap, true, false, ◌&&◌, List, [], ◌∷◌,
  ◌++◌, map, arith, All, Bool-cases,
}
use mathlib.Core.List.{append_assoc, append-nil}
use ai_soc.Python.{Python}
use ai_soc.Sensor.Spool.{
  Codec, Spool, written, cut_after, is_ok, Cycle, rejected_of, read_lines, contents, write_spool,
  keep_pending, flush, run_cycle, run_cycles,
}
use ai_soc.Sensor.Spool.Settled.{
  is_refused_at, batch-is_refused_at, events_of, AllAccepted, events_of-settle, settle-AllAccepted,
  events_of-append, append-AllAccepted,
}

-- No call to the disk fails in the cycle.
pub record Working (Event : Type 0) (c : Cycle Event) : Type 0 where
  pub reads : c.readable ≡ true
  pub clears : c.cleared ≡ true
  pub writes : c.write ≡ written

-- The events that the cycles collect, in order.
abbrev pub collected : {Event : Type 0} → List (Cycle Event) → List Event
collected [] = []
collected (c ∷ cs) = c.events ++ collected cs

-- The backend refuses no event of a batch that it answers in the cycle.
abbrev pub Unrefused : (Event : Type 0) → Cycle Event → Type 0
Unrefused Event c = rejected_of c.answer ≡ []

module _ {py : Python} {Event : Type 0} (codec : Codec py Event) where
  read_lines-dumps : (es : List Event) → read_lines codec (map codec.dumps es) ≡ es
  unfolding read_lines
  read_lines-dumps [] = refl
  read_lines-dumps (e ∷ es) =
      rw (codec.strip-dumps e, codec.dumps_filled e, codec.loads-dumps e, read_lines-dumps es)

  keep_pending-contents :
      (c : Cycle Event)
      → Working Event c
      → (e : Event) (es : List Event) (spool : Spool)
      → contents codec (keep_pending codec c (e ∷ es) spool) ≡ e ∷ es
  unfolding write_spool contents read_lines
  keep_pending-contents c w e es spool = rw (w.clears, w.writes) (read_lines-dumps (e ∷ es))

  flush-conserves :
      (c : Cycle Event)
      → Working Event c
      → (pending : List Event) (spool : Spool) → (pending ≡ [] → contents codec spool ≡ [])
      → events_of (flush codec c pending spool).0 ++ contents codec (flush codec c pending spool).1
        ≡ pending
  unfolding flush contents
  flush-conserves c w [] spool h = h refl
  flush-conserves c w (e ∷ es) spool h = elim (Bool-cases c.registered) [
    | inr waiting ↦ rw waiting (keep_pending-contents c w e es spool)
    | inl known ↦ elim (Bool-cases (is_ok c.answer)) [
      | inr failed ↦ rw (known, failed) (keep_pending-contents c w e es spool)
      | inl ok ↦
          rw (known, ok, w.clears)
            (append-nil _ ∙ events_of-settle 0 (rejected_of c.answer) (e ∷ es))
    ]
  ]

  append_empty : (xs ys : List Event) → xs ++ ys ≡ [] → xs ≡ []
  append_empty [] ys h = refl
  append_empty (x ∷ xs) ys h = cc

  pub run_cycle-conserves :
      (c : Cycle Event)
      → Working Event c
      → (spool : Spool)
      → events_of (run_cycle codec c spool).0 ++ contents codec (run_cycle codec c spool).1
        ≡ contents codec spool ++ c.events
  unfolding run_cycle flush
  run_cycle-conserves c w spool =
      rw w.reads
        (flush-conserves c w (contents codec spool ++ c.events) spool (append_empty _ c.events))

  flush-AllAccepted :
      (c : Cycle Event) (pending : List Event) (spool : Spool)
      → Unrefused Event c
      → AllAccepted (flush codec c pending spool).0
  unfolding flush
  flush-AllAccepted c [] spool none_refused = tt
  flush-AllAccepted c (e ∷ es) spool none_refused = elim (Bool-cases c.registered) [
    | inr waiting ↦ rw waiting tt
    | inl known ↦ elim (Bool-cases (is_ok c.answer)) [
      | inr failed ↦ rw (known, failed) tt
      | inl ok ↦ rw (known, ok, none_refused) (settle-AllAccepted 0 (e ∷ es))
    ]
  ]

  run_cycle-AllAccepted :
      (c : Cycle Event) (spool : Spool)
      → Unrefused Event c
      → AllAccepted (run_cycle codec c spool).0
  unfolding run_cycle
  run_cycle-AllAccepted c spool none_refused = flush-AllAccepted c _ spool none_refused

  run_cycles-AllAccepted :
      (cs : List (Cycle Event)) (spool : Spool)
      → All (Unrefused Event) cs
      → AllAccepted (run_cycles codec cs spool).0
  unfolding run_cycles
  run_cycles-AllAccepted [] spool h = tt
  run_cycles-AllAccepted (c ∷ cs) spool h =
      append-AllAccepted (run_cycle codec c spool).0 _ (run_cycle-AllAccepted c spool h.0)
        (run_cycles-AllAccepted cs _ h.1)

  run_cycles_events :
      (cs : List (Cycle Event))
      → All (Working Event) cs
      → (spool : Spool)
      → events_of (run_cycles codec cs spool).0 ++ contents codec (run_cycles codec cs spool).1
        ≡ contents codec spool ++ collected cs
  unfolding run_cycles
  run_cycles_events [] w spool = sym (append-nil _)
  run_cycles_events (c ∷ cs) w spool =
      let spool' = (run_cycle codec c spool).1 in
      let first = events_of (run_cycle codec c spool).0 in
      ap (λ sent. sent ++ contents codec (run_cycles codec cs spool').1)
        (events_of-append (run_cycle codec c spool).0 (run_cycles codec cs spool').0)
      ∙ append_assoc first _ _
      ∙ ap (λ rest. first ++ rest) (run_cycles_events cs w.1 spool')
      ∙ sym (append_assoc first (contents codec spool') (collected cs))
      ∙ ap (λ known. known ++ collected cs) (run_cycle-conserves c w.0 spool)
      ∙ append_assoc (contents codec spool) c.events (collected cs)

  -- Over any cycles in which no call to the disk fails, whether or not the device is registered and
  -- the backend answers, the events delivered to the backend followed by those in the spool are the
  -- events that were in the spool at first followed by the collected ones: none is lost before it is
  -- delivered, none is sent after it was delivered, and the order is kept. Delivered is each event of
  -- a batch that is answered with a status below 400; the backend accepts them all where no answer
  -- refuses one, and one that it refuses is dropped.
  pub run_cycles-conserves :
      (cs : List (Cycle Event))
      → All (Working Event) cs
      → (spool : Spool)
      → (events_of (run_cycles codec cs spool).0 ++ contents codec (run_cycles codec cs spool).1
          ≡ contents codec spool ++ collected cs)
        × (All (Unrefused Event) cs → AllAccepted (run_cycles codec cs spool).0)
  run_cycles-conserves cs w spool = (run_cycles_events cs w spool, run_cycles-AllAccepted cs spool)

  flush_sends :
      (c : Cycle Event)
      → Working Event c
      → c.registered ≡ true
      → is_ok c.answer ≡ true
      → (pending : List Event) (spool : Spool) → (pending ≡ [] → contents codec spool ≡ [])
      → (events_of (flush codec c pending spool).0 ≡ pending)
        × (contents codec (flush codec c pending spool).1 ≡ [])
        × ((j : ℕ)
            → is_refused_at (flush codec c pending spool).0 j
              ≡ (any_of (λ k. k == j) (rejected_of c.answer) && ltb j (length pending)))
  unfolding flush contents
  flush_sends c w known ok [] spool h = (refl, h refl, λ j. ground arith)
  flush_sends c w known ok (e ∷ es) spool h =
      rw (known, ok, w.clears)
        (
          events_of-settle 0 (rejected_of c.answer) (e ∷ es),
          refl,
          batch-is_refused_at (rejected_of c.answer) (e ∷ es),
        )

  -- After any cycles in which no call to the disk fails, one such cycle in which the device is
  -- registered and the backend answers the batch with a status below 400 empties the spool, and then
  -- the events delivered in all are those that were in the spool at first and the collected ones, in
  -- order. Of the last batch exactly the events at the places that its answer names are refused, and
  -- the backend has accepted each event if none of its answers refuses one.
  pub run_cycle-catches_up :
      (cs : List (Cycle Event))
      → All (Working Event) cs
      → (c : Cycle Event) → Working Event c
      → c.registered ≡ true
      → is_ok c.answer ≡ true
      → (spool : Spool)
      → let before = run_cycles codec cs spool in
        let last = run_cycle codec c before.1 in
        (events_of (before.0 ++ last.0) ≡ contents codec spool ++ collected cs ++ c.events)
        × (contents codec last.1 ≡ [])
        × ((j : ℕ)
            → is_refused_at last.0 j ≡ (
                any_of (λ k. k == j) (rejected_of c.answer)
                && ltb j (length (contents codec before.1 ++ c.events))))
        × (All (Unrefused Event) cs → Unrefused Event c → AllAccepted (before.0 ++ last.0))
  unfolding run_cycle flush
  run_cycle-catches_up cs ws c w known ok spool =
      let before = run_cycles codec cs spool in
      let spool' = before.1 in
      let last = run_cycle codec c spool' in
      let sends =
        flush_sends c w known ok (contents codec spool' ++ c.events) spool'
          (append_empty _ c.events) in
      (
        events_of-append before.0 last.0
            ∙ ap (λ sent. events_of before.0 ++ sent) (rw w.reads sends.0)
            ∙ sym (append_assoc (events_of before.0) (contents codec spool') c.events)
            ∙ ap (λ known. known ++ c.events) (run_cycles_events cs ws spool),
        rw w.reads sends.1,
        rw w.reads sends.2,
        λ h k.
            append-AllAccepted before.0 last.0 (run_cycles-AllAccepted cs spool h)
              (run_cycle-AllAccepted c spool' k),
      )

  flush_loses :
      (c : Cycle Event) (pending : List Event) (spool : Spool)
      → c.cleared ≡ true
      → c.write ≡ cut_after 0
      → (c.registered && is_ok c.answer) ≡ false
      → (pending ≡ [] → contents codec spool ≡ [])
      → ((flush codec c pending spool).0 ≡ [])
        × (contents codec (flush codec c pending spool).1 ≡ [])
  unfolding flush contents write_spool keep_pending read_lines
  flush_loses c [] spool cleared cut unsent h = (refl, h refl)
  flush_loses c (e ∷ es) spool cleared cut unsent h = elim (Bool-cases c.registered) [
    | inr waiting ↦ rw (waiting, cleared, cut) (refl, refl)
    | inl known ↦
        let failed : is_ok c.answer ≡ false = ground (arith, known, unsent) in
        rw (known, failed, cleared, cut) (refl, refl)
  ]

  -- A cycle that reads and removes the spool but cannot open it for writing, while the device is not
  -- registered or the backend does not accept the batch, sends nothing and leaves an empty spool:
  -- the events that it collected and those that were spooled before are gone.
  pub run_cycle_loses :
      (c : Cycle Event) (spool : Spool)
      → c.readable ≡ true
      → c.cleared ≡ true
      → c.write ≡ cut_after 0
      → (c.registered && is_ok c.answer) ≡ false
      → ((run_cycle codec c spool).0 ≡ []) × (contents codec (run_cycle codec c spool).1 ≡ [])
  unfolding run_cycle flush
  run_cycle_loses c spool readable cleared cut unsent = rw readable (
      flush_loses c (contents codec spool ++ c.events) spool cleared cut unsent
        (append_empty _ c.events))
