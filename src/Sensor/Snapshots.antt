-- ===== src/Sensor/Snapshots.antt =====
-- sensor/edysor_sensor.py: the difference of two snapshots, which the collectors of files and of Run
-- values take in the same two loops.
pub mod Changes
use ai_soc.Prelude.{
  String, Bool, true, false, not, Option, none, some, List, [], ◌∷◌, ◌++◌, if◌then◌else◌, is_none,
}
use ai_soc.Prelude.Assoc.{Assoc, lookup, insert}

pub data Action : Type 0 where
  created modified deleted : Action

pub record Change (V : Type 0) : Type 0 where
  pub name : String
  pub action : Action
  -- what is there now
  pub now : Option V

module _ {V : Type 0} (same : V → V → Bool) where
  -- no old value, or one that differs
  abbrev pub change_of : String → Option V → V → List (Change V)
  change_of name none v = record { name = name; action = created; now = some v } ∷ []
  change_of name (some old) v =
      if same old v then [] else record { name = name; action = modified; now = some v } ∷ []

  unfoldable pub changed : Assoc V → Assoc V → List (Change V)
  unfolding lookup
  changed old [] = []
  changed old ((name, v) ∷ current) = change_of name (lookup name old) v ++ changed old current

  abbrev pub gone_of : String → Option V → List (Change V)
  gone_of name none = record { name = name; action = deleted; now = none } ∷ []
  gone_of name (some v) = []

  unfoldable pub gone : Assoc V → Assoc V → List (Change V)
  unfolding lookup
  gone [] current = []
  gone ((name, v) ∷ old) current = gone_of name (lookup name current) ++ gone old current

  unfoldable pub changes : Assoc V → Assoc V → List (Change V)
  unfolding changed gone
  changes old current = changed old current ++ gone old current

-- The answers for the watched names, each with what is there or nothing, as a dictionary.
unfoldable pub snapshot : {V : Type 0} → Assoc V → List (String × Option V) → Assoc V
unfolding insert
snapshot current [] = current
snapshot current ((name, none) ∷ answers) = snapshot current answers
snapshot current ((name, some v) ∷ answers) = snapshot (insert name v current) answers
