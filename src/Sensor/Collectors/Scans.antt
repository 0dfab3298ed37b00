-- ===== src/Sensor/Collectors/Scans.antt =====
-- What a scan of the files and of the Run values reports (edysor_sensor.py, collect_files and
-- collect_win_persistence).
use ai_soc.Prelude.{
  String, ℕ, ◌≡◌, refl, ◌∙◌, ap, true, Option, none, some, List, [], ◌∷◌, ◌++◌, map, str_eq,
  if◌then◌else◌, or_else,
}
use ai_soc.Prelude.Assoc.{Assoc, lookup, insert, lookup-insert}
use ai_soc.Sensor.Snapshots.{Change, changes, snapshot}
use ai_soc.Sensor.Snapshots.Changes.{IsDict, snapshot-IsDict, changes_of, difference, changes_exact}
use ai_soc.Sensor.Collectors.{CollectorState, Readings}
use ai_soc.Sensor.Collectors.Files.{
  same_stat, values, file_event, collect_files, run_event, read_run_key, report_keys,
  collect_win_persistence,
}

module _ {V : Type 0} where
  -- the last answer for a name
  abbrev pub latest : String → List (String × Option V) → Option V → Option V
  latest p [] before = before
  latest p ((k, none) ∷ answers) before = latest p answers before
  latest p ((k, some v) ∷ answers) before = latest p answers (if str_eq k p then some v else before)

  pub lookup-snapshot :
      (p : String) (answers : List (String × Option V)) (m : Assoc V)
      → lookup p (snapshot m answers) ≡ latest p answers (lookup p m)
  unfolding snapshot
  lookup-snapshot p [] m = refl
  lookup-snapshot p ((k, none) ∷ answers) m = lookup-snapshot p answers m
  lookup-snapshot p ((k, some v) ∷ answers) m =
      lookup-snapshot p answers (insert k v m) ∙ ap (latest p answers) (lookup-insert k p v m)

  -- what stands under a name in a scan
  abbrev pub answer_for : String → List (String × Option V) → Option V
  answer_for p answers = latest p answers none

  pub lookup-scan :
      (p : String) (answers : List (String × Option V))
      → lookup p (snapshot [] answers) ≡ answer_for p answers
  unfolding lookup
  lookup-scan p answers = lookup-snapshot p answers []

  pub scan-IsDict : (answers : List (String × Option V)) → IsDict (snapshot [] answers)
  unfolding lookup
  scan-IsDict answers = snapshot-IsDict [] answers (λ p. refl)

module _ (r : Readings) where
  -- Two scans in a row, on a sensor that has its baseline.
  abbrev scanned : CollectorState → List (String × Option (ℕ × ℕ)) → CollectorState
  unfolding collect_files
  scanned state answers = (collect_files r state answers).1

  -- The second of two scans reports a list of changes in which every path has exactly the difference
  -- between what the first scan saw of it and what the second one sees: it is created, deleted,
  -- modified where the time or the size differs, or else not mentioned.
  pub collect_files-exact :
      (state : CollectorState) (first second : List (String × Option (ℕ × ℕ)))
      → (cs : List (Change (ℕ × ℕ))) × ((collect_files r (collect_files r state first).1 second).0
          ≡ map (file_event r) cs)
        × ((p : String)
            → changes_of p cs ≡ difference same_stat p (answer_for p first) (answer_for p second))
  unfolding collect_files
  collect_files-exact state first second = (
    changes same_stat (snapshot [] first) (snapshot [] second),
    refl,
    λ p.
        changes_exact same_stat p (snapshot [] first) (snapshot [] second) (scan-IsDict first)
          (scan-IsDict second)
        ∙ rw (lookup-scan p first, lookup-scan p second) refl,
  )

-- the Run keys of the user and of the machine
abbrev pub user_key : String
user_key = "HKCU\\Software\\Microsoft\\Windows\\CurrentVersion\\Run"

abbrev pub machine_key : String
machine_key = "HKLM\\Software\\Microsoft\\Windows\\CurrentVersion\\Run"

abbrev pub Listing : Type 0
Listing = Option (List (String × String))

abbrev pub reads : Listing → Listing → String → String → Listing
reads user machine root subkey = if str_eq root "HKCU" then user else machine

-- what a listing says of a value name
abbrev pub value_in : String → Listing → Option String
value_in p none = none
value_in p (some listed) = answer_for p (values listed)

-- A key that cannot be read now says nothing; one that could not be read before counts as empty.
abbrev pub run_difference : String → Listing → Listing → List (Change String)
run_difference p before none = []
run_difference p before (some listed) =
    difference str_eq p (value_in p before) (value_in p (some listed))

abbrev both : Option (Assoc String) → Option (Assoc String) → List (String × Option (Assoc String))
both a b = (user_key, a) ∷ (machine_key, b) ∷ []

lookup-both :
    (a b : Option (Assoc String))
    → (lookup user_key (snapshot [] (both a b)) ≡ a)
      × (lookup machine_key (snapshot [] (both a b)) ≡ b)
unfolding snapshot lookup insert
lookup-both none none = (refl, refl)
lookup-both none (some b) = (refl, refl)
lookup-both (some a) none = (refl, refl)
lookup-both (some a) (some b) = (refl, refl)

-- the changes under a key
abbrev key_changes : Option (Assoc String) → Option (Assoc String) → List (Change String)
key_changes old none = []
key_changes old (some vals) = changes str_eq (or_else old []) vals

append-nil : {A : Type 0} (xs : List A) → xs ++ [] ≡ xs
append-nil [] = refl
append-nil (x ∷ xs) = ap (λ ys. x ∷ ys) (append-nil xs)

report_keys-both :
    (r : Readings) (old : Assoc (Assoc String)) (a b : Option (Assoc String))
    → report_keys r old (snapshot [] (both a b))
      ≡ map (run_event r user_key) (key_changes (lookup user_key old) a)
        ++ map (run_event r machine_key) (key_changes (lookup machine_key old) b)
unfolding report_keys snapshot insert
report_keys-both r old none none = refl
report_keys-both r old none (some b) = append-nil _
report_keys-both r old (some a) none = refl
report_keys-both r old (some a) (some b) =
    ap
      (λ ys. map (run_event r user_key) (changes str_eq (or_else (lookup user_key old) []) a) ++ ys)
      (append-nil _)

key_changes-exact :
    (p : String) (before now : Listing)
    → changes_of p (key_changes (read_run_key before) (read_run_key now))
      ≡ run_difference p before now
unfolding lookup read_run_key
key_changes-exact p before none = refl
key_changes-exact p none (some now) =
    changes_exact str_eq p [] (snapshot [] (values now)) (λ q. refl) (scan-IsDict (values now))
    ∙ rw (lookup-scan p (values now)) refl
key_changes-exact p (some before) (some now) =
    changes_exact str_eq p (snapshot [] (values before)) (snapshot [] (values now))
      (scan-IsDict (values before)) (scan-IsDict (values now))
    ∙ rw (lookup-scan p (values before), lookup-scan p (values now)) refl

module _ (r : Readings) (state : CollectorState) (user machine user' machine' : Listing) where
  -- On Windows, the second of two scans of the Run keys reports the changes of the user's key and
  -- then those of the machine's. In both, every value name has exactly the difference between what
  -- the first scan listed under it and what the second one lists: a key that cannot be read now has
  -- no changes, and every value of a key that could not be read before is created.
  pub collect_win_persistence-exact :
      (ucs : List (Change String)) × (mcs : List (Change String)) × ((collect_win_persistence r true
          (collect_win_persistence r true state (reads user machine)).1
          (reads user' machine')).0
        ≡ map (run_event r user_key) ucs ++ map (run_event r machine_key) mcs)
      × ((p : String)
          → (changes_of p ucs ≡ run_difference p user user')
            × (changes_of p mcs ≡ run_difference p machine machine'))
  unfolding collect_win_persistence
  collect_win_persistence-exact =
      let old = both (read_run_key user) (read_run_key machine) in
      let keys = lookup-both (read_run_key user) (read_run_key machine) in
      (
        key_changes (read_run_key user) (read_run_key user'),
        key_changes (read_run_key machine) (read_run_key machine'),
        report_keys-both r (snapshot [] old) (read_run_key user') (read_run_key machine')
            ∙ rw (keys.0, keys.1) refl,
        λ p. (key_changes-exact p user user', key_changes-exact p machine machine'),
      )
