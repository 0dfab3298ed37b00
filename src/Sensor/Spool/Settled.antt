-- ===== src/Sensor/Spool/Settled.antt =====
-- Events that were posted in a batch that was answered with success (edysor_sensor.py, send_events).
use ai_soc.Prelude.{
  ◌≡◌, refl, ap, ◌∙◌, ℕ, zero, suc, ◌+◌, Bool, true, false, not, ◌&&◌, List, [], ◌∷◌, ◌++◌, ◌==◌,
  map, any_of, ltb, length, arith,
}
use ai_soc.Sensor.Spool.{Delivered, settle}

-- The events that were delivered, whether the backend took them or not.
abbrev pub events_of : {Event : Type 0} → List (Delivered Event) → List Event
events_of = map (λ d. d.event)

abbrev pub AllAccepted : {Event : Type 0} → List (Delivered Event) → Type 0
AllAccepted [] = Unit
AllAccepted (d ∷ ds) = (d.accepted ≡ true) × AllAccepted ds

pub events_of-settle :
    {Event : Type 0} (i : ℕ) (rejected : List ℕ) (es : List Event)
    → events_of (settle i rejected es) ≡ es
unfolding settle
events_of-settle i rejected [] = refl
events_of-settle i rejected (e ∷ es) = ap (λ rest. e ∷ rest) (events_of-settle (suc i) rejected es)

pub settle-AllAccepted : {Event : Type 0} (i : ℕ) (es : List Event) → AllAccepted (settle i [] es)
unfolding settle
settle-AllAccepted i [] = tt
settle-AllAccepted i (e ∷ es) = (refl, settle-AllAccepted (suc i) es)

pub events_of-append :
    {Event : Type 0} (xs ys : List (Delivered Event))
    → events_of (xs ++ ys) ≡ events_of xs ++ events_of ys
events_of-append [] ys = refl
events_of-append (x ∷ xs) ys = ap (λ rest. x.event ∷ rest) (events_of-append xs ys)

pub append-AllAccepted :
    {Event : Type 0} (xs ys : List (Delivered Event))
    → AllAccepted xs
    → AllAccepted ys
    → AllAccepted (xs ++ ys)
append-AllAccepted [] ys h k = k
append-AllAccepted (x ∷ xs) ys h k = (h.0, append-AllAccepted xs ys h.1 k)

from_zero : (i : ℕ) → i ≡ i + 0
from_zero i = omega arith

shifted : (i j : ℕ) → suc i + j ≡ i + suc j
shifted i j = omega arith

plus_zero : (j : ℕ) → 0 + j ≡ j
plus_zero j = omega arith

-- whether the event at a place of the batch was refused
abbrev pub is_refused_at : {Event : Type 0} → List (Delivered Event) → ℕ → Bool
is_refused_at [] j = false
is_refused_at (d ∷ ds) zero = not d.accepted
is_refused_at (d ∷ ds) (suc j) = is_refused_at ds j

settle-is_refused_at :
    {Event : Type 0} (i : ℕ) (rejected : List ℕ) (es : List Event) (j : ℕ)
    → is_refused_at (settle i rejected es) j
      ≡ (any_of (λ k. k == (i + j)) rejected && ltb j (length es))
unfolding settle
settle-is_refused_at i rejected [] j = ground arith
settle-is_refused_at i rejected (e ∷ es) zero =
    let here : any_of (λ k. k == i) rejected ≡ any_of (λ k. k == (i + 0)) rejected =
      ap (λ n. any_of (λ k. k == n) rejected) (from_zero i) in
    ground (arith, here)
settle-is_refused_at i rejected (e ∷ es) (suc j) =
    let there : any_of (λ k. k == (suc i + j)) rejected ≡ any_of (λ k. k == (i + suc j)) rejected =
      ap (λ n. any_of (λ k. k == n) rejected) (shifted i j) in
    let rest = settle-is_refused_at (suc i) rejected es j in ground (arith, rest, there)

pub batch-is_refused_at :
    {Event : Type 0} (rejected : List ℕ) (es : List Event) (j : ℕ)
    → is_refused_at (settle 0 rejected es) j ≡ (any_of (λ k. k == j) rejected && ltb j (length es))
batch-is_refused_at rejected es j =
    settle-is_refused_at 0 rejected es j
    ∙ ap (λ n. any_of (λ k. k == n) rejected && ltb j (length es)) (plus_zero j)
