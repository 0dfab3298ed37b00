-- ===== src/Sensor/Snapshots/Changes.antt =====
-- The changes between two snapshots, name by name (edysor_sensor.py, collect_files and
-- collect_win_persistence).
use ai_soc.Prelude.{
  String, ◌≡◌, refl, ◌∙◌, Bool, Option, none, some, List, [], ◌∷◌, ◌++◌, str_eq, eq_iff,
  if◌then◌else◌, Bool-cases, inl, inr, arith,
}
use ai_soc.Prelude.Assoc.{Assoc, lookup, insert, lookup-insert}
use ai_soc.Sensor.Snapshots.{
  created, modified, deleted, Change, change_of, changed, gone_of, gone, changes, snapshot,
}

module _ {V : Type 0} where
  -- the values under a name
  abbrev pub entries : String → Assoc V → List V
  entries p [] = []
  entries p ((k, v) ∷ m) = let rest = entries p m in if str_eq k p then v ∷ rest else rest

  abbrev pub to_list : Option V → List V
  to_list none = []
  to_list (some v) = v ∷ []

  -- A dictionary has at most one entry for a name.
  abbrev pub IsDict : Assoc V → Type 0
  unfolding lookup
  IsDict m = (p : String) → entries p m ≡ to_list (lookup p m)

  abbrev replaced : V → List V → List V
  replaced v [] = v ∷ []
  replaced v (x ∷ xs) = v ∷ xs

  entries-insert :
      (k p : String) (v : V) (m : Assoc V)
      → entries p (insert k v m) ≡ (if str_eq k p then replaced v (entries p m) else entries p m)
  unfolding insert
  entries-insert k p v [] = refl
  entries-insert k p v ((i, old) ∷ m) =
      ground (arith, entries-insert k p v m, eq_iff i k, eq_iff i p, eq_iff k p)

  insert-IsDict : (k : String) (v : V) (m : Assoc V) → IsDict m → IsDict (insert k v m)
  unfolding IsDict
  insert-IsDict k v m h p = ground (arith, entries-insert k p v m, lookup-insert k p v m, h p)

  pub snapshot-IsDict :
      (m : Assoc V) (answers : List (String × Option V)) → IsDict m → IsDict (snapshot m answers)
  unfolding snapshot
  snapshot-IsDict m [] h = h
  snapshot-IsDict m ((k, none) ∷ answers) h = snapshot-IsDict m answers h
  snapshot-IsDict m ((k, some v) ∷ answers) h =
      snapshot-IsDict (insert k v m) answers (insert-IsDict k v m h)

  -- the changes under a name
  abbrev pub changes_of : String → List (Change V) → List (Change V)
  changes_of p [] = []
  changes_of p (c ∷ cs) = let rest = changes_of p cs in if str_eq (c.name) p then c ∷ rest else rest

  changes_of-++ :
      (p : String) (cs ds : List (Change V))
      → changes_of p (cs ++ ds) ≡ changes_of p cs ++ changes_of p ds
  changes_of-++ p [] ds = refl
  changes_of-++ p (c ∷ cs) ds = ground (arith, changes_of-++ p cs ds)

  module _ (same : V → V → Bool) where
    -- What a name deserves: its value before and its value now say it all.
    abbrev pub difference : String → Option V → Option V → List (Change V)
    difference p none none = []
    difference p none (some v) = record { name = p; action = created; now = some v } ∷ []
    difference p (some a) none = record { name = p; action = deleted; now = none } ∷ []
    difference p (some a) (some b) =
        if same a b then [] else record { name = p; action = modified; now = some b } ∷ []

    abbrev compared : String → Option V → List V → List (Change V)
    compared p before [] = []
    compared p before (v ∷ vs) = change_of same p before v ++ compared p before vs

    abbrev missed : String → List V → Option V → List (Change V)
    missed p [] now = []
    missed p (v ∷ vs) now = gone_of same p now ++ missed p vs now

    changes_of-change_of :
        (p k : String) (before : Option V) (v : V)
        → changes_of p (change_of same k before v)
          ≡ (if str_eq k p then change_of same p before v else [])
    changes_of-change_of p k none v = ground (arith, eq_iff k p)
    changes_of-change_of p k (some a) v = ground (arith, eq_iff k p)

    changes_of-gone_of :
        (p k : String) (now : Option V)
        → changes_of p (gone_of same k now) ≡ (if str_eq k p then gone_of same p now else [])
    changes_of-gone_of p k none = ground (arith, eq_iff k p)
    changes_of-gone_of p k (some a) = ground arith

    changes_of-changed :
        (p : String) (old current : Assoc V)
        → changes_of p (changed same old current) ≡ compared p (lookup p old) (entries p current)
    unfolding changed lookup
    changes_of-changed p old [] = refl
    changes_of-changed p old ((k, v) ∷ current) = elim (Bool-cases (str_eq k p)) [
      | inl here ↦
          changes_of-++ p (change_of same k (lookup k old) v) (changed same old current)
          ∙ rw (changes_of-change_of p k (lookup k old) v, changes_of-changed p old current, here)
              (rw ((eq_iff k p).0 here) refl)
      | inr other ↦
          changes_of-++ p (change_of same k (lookup k old) v) (changed same old current)
          ∙ rw (changes_of-change_of p k (lookup k old) v, changes_of-changed p old current, other)
              refl
    ]

    changes_of-gone :
        (p : String) (old current : Assoc V)
        → changes_of p (gone same old current) ≡ missed p (entries p old) (lookup p current)
    unfolding gone lookup
    changes_of-gone p [] current = refl
    changes_of-gone p ((k, v) ∷ old) current = elim (Bool-cases (str_eq k p)) [
      | inl here ↦
          changes_of-++ p (gone_of same k (lookup k current)) (gone same old current)
          ∙ rw (changes_of-gone_of p k (lookup k current), changes_of-gone p old current, here)
              (rw ((eq_iff k p).0 here) refl)
      | inr other ↦
          changes_of-++ p (gone_of same k (lookup k current)) (gone same old current)
          ∙ rw (changes_of-gone_of p k (lookup k current), changes_of-gone p old current, other)
              refl
    ]

    agree :
        (p : String) (before now : Option V)
        → compared p before (to_list now) ++ missed p (to_list before) now ≡ difference p before now
    agree p none none = refl
    agree p none (some v) = refl
    agree p (some a) none = refl
    agree p (some a) (some b) = ground arith

    -- Between two dictionaries, the changes reported for a name are exactly the difference of what
    -- stood under it: one creation, one deletion, one modification, or nothing.
    pub changes_exact :
        (p : String) (old current : Assoc V)
        → IsDict old
        → IsDict current
        → changes_of p (changes same old current) ≡ difference p (lookup p old) (lookup p current)
    unfolding changes IsDict
    changes_exact p old current h k =
        changes_of-++ p (changed same old current) (gone same old current)
        ∙ rw (changes_of-changed p old current, changes_of-gone p old current, h p, k p)
            (agree p (lookup p old) (lookup p current))
