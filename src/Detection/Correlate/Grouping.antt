-- ===== src/Detection/Correlate/Grouping.antt =====
-- The groups of alerts, and tables row by row (correlate.py, correlate_new_alerts).
use ai_soc.Prelude.{
  ℕ, String, ◌≡◌, refl, ◌∙◌, ◌⊎◌, inl, inr, Bool, false, ◌||◌, List, [], ◌∷◌, ◌++◌, map, ◌==◌,
  str_eq, any_of, or_else, arith, Bool-cases,
}
use ai_soc.Prelude.Assoc.{Assoc, lookup, insert}
use ai_soc.Store.{Alert, Incident}
use ai_soc.Detection.Correlate.{device_key, group_by_device}

-- whether an alert of the list has the id
abbrev pub has_id : List Alert → ℕ → Bool
has_id alerts k = any_of (λ g. g.id == k) alerts

abbrev pub in_groups : Assoc (List Alert) → ℕ → Bool
in_groups [] k = false
in_groups ((d, g) ∷ rest) k = has_id g k || in_groups rest k

has_id-append : (xs ys : List Alert) (k : ℕ) → has_id (xs ++ ys) k ≡ (has_id xs k || has_id ys k)
has_id-append [] ys k = refl
has_id-append (x ∷ xs) ys k = ground (arith, has_id-append xs ys k)

in_groups-insert :
    (d : String) (g : List Alert) (b : Bool) (k : ℕ) (m : Assoc (List Alert))
    → has_id g k ≡ (has_id (or_else (lookup d m) []) k || b)
    → in_groups (insert d g m) k ≡ (in_groups m k || b)
unfolding insert lookup
in_groups-insert d g b k [] e = ground (arith, e)
in_groups-insert d g b k ((j, h) ∷ m) e = elim (Bool-cases (str_eq j d)) [
  | inl same ↦
      let e' : has_id g k ≡ (has_id h k || b) = rw (same, lookup) at e in
      rw same (ground (arith, e'))
  | inr other ↦
      let e' : has_id g k ≡ (has_id (or_else (lookup d m) []) k || b) = rw (other, lookup) at e in
      let rest = in_groups-insert d g b k m e' in rw other (ground (arith, rest))
]

pub in_groups-group_by_device :
    (groups : Assoc (List Alert)) (alerts : List Alert) (k : ℕ)
    → in_groups (group_by_device groups alerts) k ≡ (in_groups groups k || has_id alerts k)
unfolding group_by_device
in_groups-group_by_device groups [] k = ground arith
in_groups-group_by_device groups (a ∷ rest) k = ground (
  arith,
  in_groups-group_by_device
      (insert (device_key a) (or_else (lookup (device_key a) groups) [] ++ a ∷ []) groups) rest k,
  in_groups-insert (device_key a) (or_else (lookup (device_key a) groups) [] ++ a ∷ []) (a.id == k)
      k groups
      (has_id-append (or_else (lookup (device_key a) groups) []) (a ∷ []) k ∙ ground arith),
)

-- The incident is a row of the table.
abbrev pub IsRow : Incident → List Incident → Type 0
IsRow i [] = ⊥
IsRow i (j ∷ rest) = (i ≡ j) ⊎ IsRow i rest

pub append-IsRow : (i : Incident) (xs ys : List Incident) → IsRow i xs → IsRow i (xs ++ ys)
append-IsRow i [] ys h = absurd h
append-IsRow i (x ∷ xs) ys (inl here) = inl here
append-IsRow i (x ∷ xs) ys (inr there) = inr (append-IsRow i xs ys there)

pub last-IsRow : (i : Incident) (xs : List Incident) → IsRow i (xs ++ i ∷ [])
last-IsRow i [] = inl refl
last-IsRow i (x ∷ xs) = inr (last-IsRow i xs)

-- Two tables row by row.
abbrev pub RowByRow : (Alert → Alert → Type 0) → List Alert → List Alert → Type 0
RowByRow R [] [] = Unit
RowByRow R (a ∷ rows) (b ∷ others) = R a b × RowByRow R rows others
RowByRow R _ _ = ⊥

pub RowByRow-map :
    (R : Alert → Alert → Type 0) (f : Alert → Alert)
    → ((a : Alert) → R a (f a))
    → (alerts : List Alert) → RowByRow R alerts (map f alerts)
RowByRow-map R f h [] = tt
RowByRow-map R f h (a ∷ alerts) = (h a, RowByRow-map R f h alerts)

pub RowByRow-trans :
    (R S T : Alert → Alert → Type 0)
    → ((a b c : Alert) → R a b → S b c → T a c)
    → (xs ys zs : List Alert) → RowByRow R xs ys
    → RowByRow S ys zs
    → RowByRow T xs zs
RowByRow-trans R S T h [] [] [] r s = tt
RowByRow-trans R S T h (a ∷ xs) (b ∷ ys) (c ∷ zs) r s =
    (h a b c r.0 s.0, RowByRow-trans R S T h xs ys zs r.1 s.1)
RowByRow-trans R S T h [] [] (c ∷ zs) r s = absurd s
RowByRow-trans R S T h [] (b ∷ ys) zs r s = absurd r
RowByRow-trans R S T h (a ∷ xs) [] zs r s = absurd r
RowByRow-trans R S T h (a ∷ xs) (b ∷ ys) [] r s = absurd s
