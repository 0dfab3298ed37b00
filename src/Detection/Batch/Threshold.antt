-- ===== src/Detection/Batch/Threshold.antt =====
-- The brute-force rule and the number of failed logins of a device (rules.py).
use ai_soc.Prelude.{
  ℕ, suc, ◌+◌, String, ◌≡◌, refl, ◌∙◌, ap, subst, Bool, true, false, not, ◌&&◌, List, [], ◌∷◌, ◌++◌,
  if◌then◌else◌, str_eq, eq_iff, value, length, length-append, leb, ltb, or_else, any_of, arith,
  Bool-cases, inl, inr,
}
use ai_soc.Prelude.Assoc.{Assoc, lookup, insert, lookup-insert}
use ai_soc.Json.{Fields}
use ai_soc.Python.{Python}
use ai_soc.Store.{SecurityEvent}
use ai_soc.Detection.Rules.{Finding, section, fingerprint, texts_of}
use ai_soc.Detection.Batch.{
  brute_force_failed_threshold, is_failed_login, device_key, Tally, count_event, tally, empty_tally,
  brute_force_finding, findings_of, match_batch_rules,
}

-- The failed logins of a device among the events.
abbrev pub failed_logins : String → List SecurityEvent → ℕ
failed_logins d [] = 0
failed_logins d (ev ∷ evs) =
    let rest = failed_logins d evs in
    if is_failed_login ev && str_eq (device_key ev) d then suc rest else rest

abbrev attempts_of : String → Assoc (List Fields) → ℕ
attempts_of d m = length (or_else (lookup d m) [])

count_event-attempts :
    (t : Tally) (ev : SecurityEvent) (d : String)
    → attempts_of d (count_event t ev).failures ≡ (
        if is_failed_login ev && str_eq (device_key ev) d
        then suc (attempts_of d t.failures)
        else attempts_of d t.failures)
unfolding count_event
count_event-attempts t ev d = elim (Bool-cases (is_failed_login ev)) [
  | inr fine ↦ rw fine refl
  | inl failed ↦
      let k = device_key ev in
      let before = or_else (lookup k t.failures) [] in
      elim (Bool-cases (str_eq k d)) [
        | inl same ↦
            let moved : attempts_of k t.failures ≡ attempts_of d t.failures =
              ap (λ x. attempts_of x t.failures) ((eq_iff k d).0 same) in
            rw (failed, lookup-insert k d (before ++ section ev ∷ []) t.failures, same)
              (omega (arith, length-append before (section ev ∷ []), moved))
        | inr other ↦
            rw (failed, lookup-insert k d (before ++ section ev ∷ []) t.failures, other) refl
      ]
]

tally-attempts :
    (t : Tally) (evs : List SecurityEvent) (d : String)
    → attempts_of d (tally t evs).failures ≡ attempts_of d t.failures + failed_logins d evs
unfolding tally count_event
tally-attempts t [] d = omega arith
tally-attempts t (ev ∷ evs) d =
    ground (arith, count_event-attempts t ev d, tally-attempts (count_event t ev) evs d)

-- Every key of the dictionary stands in it once.
abbrev absent : String → Assoc (List Fields) → Bool
absent d [] = true
absent d ((k, v) ∷ m) = not (str_eq k d) && absent d m

abbrev Unique : Assoc (List Fields) → Type 0
Unique [] = Unit {0}
Unique ((k, v) ∷ m) = (absent k m ≡ true) × Unique m

insert-absent :
    (k d : String) (v : List Fields) (m : Assoc (List Fields))
    → str_eq k d ≡ false
    → absent d m ≡ true
    → absent d (insert k v m) ≡ true
unfolding insert
insert-absent k d v [] h a = rw h refl
insert-absent k d v ((j, w) ∷ m) h a = elim (Bool-cases (str_eq j k)) [
  | inl same ↦ rw same a
  | inr other ↦ rw other (ground (arith, a, insert-absent k d v m h))
]

insert-Unique :
    (k : String) (v : List Fields) (m : Assoc (List Fields)) → Unique m → Unique (insert k v m)
unfolding insert
insert-Unique k v [] u = (refl, tt)
insert-Unique k v ((j, w) ∷ m) (a, u) = elim (Bool-cases (str_eq j k)) [
  | inl same ↦ rw same (a, u)
  | inr other ↦
      let swapped : str_eq k j ≡ false = ground (arith, other, eq_iff k j, eq_iff j k) in
      rw other (insert-absent k j v m swapped a, insert-Unique k v m u)
]

tally-Unique :
    (t : Tally) (evs : List SecurityEvent) → Unique t.failures → Unique (tally t evs).failures
unfolding tally count_event
tally-Unique t [] u = u
tally-Unique t (ev ∷ evs) u = elim (Bool-cases (is_failed_login ev)) [
  | inl failed ↦
      tally-Unique (count_event t ev) evs (rw failed (insert-Unique (device_key ev) _ t.failures u))
  | inr fine ↦ tally-Unique (count_event t ev) evs (rw fine u)
]

lookup-absent : (d : String) (m : Assoc (List Fields)) → absent d m ≡ true → attempts_of d m ≡ 0
unfolding lookup
lookup-absent d [] a = refl
lookup-absent d ((k, v) ∷ m) a = ground (arith, a, lookup-absent d m)

-- Whether the findings name a device.
abbrev pub reports : String → List Finding → Bool
reports d = any_of (λ f. str_eq f.device_id d)

module _ (k : String) (v : List Fields) (m : Assoc (List Fields)) where
  attempts_of-cons :
      (d : String) → attempts_of d ((k, v) ∷ m) ≡ (if str_eq k d then length v else attempts_of d m)
  unfolding lookup
  attempts_of-cons d = ground arith

  attempts-here : (d : String) → absent k m ≡ true → str_eq k d ≡ true → attempts_of d m ≡ 0
  attempts-here d a same =
      subst (λ x. attempts_of x m ≡ 0) ((eq_iff k d).0 same) (lookup-absent k m a)

  reports-few :
      (fs : List Finding)
      → absent k m ≡ true
      → ltb (length v) brute_force_failed_threshold ≡ true
      → ((d : String) → reports d fs ≡ leb brute_force_failed_threshold (attempts_of d m))
      → (d : String) → reports d fs ≡ leb brute_force_failed_threshold (attempts_of d ((k, v) ∷ m))
  reports-few fs a few exact d = elim (Bool-cases (str_eq k d)) [
    | inl same ↦
        rw (exact d, attempts-here d a same, attempts_of-cons d, same) (ground (arith, few))
    | inr other ↦ rw (exact d, attempts_of-cons d, other) refl
  ]

  reports-enough :
      (f : Finding) (fs : List Finding)
      → absent k m ≡ true
      → f.device_id ≡ k
      → ltb (length v) brute_force_failed_threshold ≡ false
      → ((d : String) → reports d fs ≡ leb brute_force_failed_threshold (attempts_of d m))
      → (d : String)
      → reports d (f ∷ fs) ≡ leb brute_force_failed_threshold (attempts_of d ((k, v) ∷ m))
  reports-enough f fs a device enough exact d = elim (Bool-cases (str_eq k d)) [
    | inl same ↦ rw (device, same, attempts_of-cons d, same) (ground (arith, enough))
    | inr other ↦ rw (device, other, exact d, attempts_of-cons d, other) refl
  ]

module _ (py : Python) where
  brute_force_finding-device :
      (latest : Assoc ℕ) (d : String) (attempts : List Fields)
      → (f : Finding) × (brute_force_finding py latest d attempts ≡ value f) × (f.device_id ≡ d)
  unfolding brute_force_finding fingerprint texts_of
  brute_force_finding-device latest d attempts = (_, refl, refl)

  findings_of-reports :
      (latest : Assoc ℕ) (m : Assoc (List Fields))
      → Unique m
      → (fs : List Finding) × (findings_of py latest m ≡ value fs)
        × ((d : String) → reports d fs ≡ leb brute_force_failed_threshold (attempts_of d m))
  unfolding findings_of lookup
  findings_of-reports latest [] u = ([], refl, λ d. refl)
  findings_of-reports latest ((k, v) ∷ m) (a, u) =
      let (fs, run, exact) = findings_of-reports latest m u in
      let (f, made, device) = brute_force_finding-device latest k v in
      elim (Bool-cases (ltb (length v) brute_force_failed_threshold)) [
        | inl few ↦ (fs, rw (run, few) refl, λ d. reports-few k v m fs a few exact d)
        | inr enough ↦ (
          f ∷ fs,
          rw (run, enough, made) refl,
          λ d. reports-enough k v m f fs a device enough exact d,
        )
      ]

  -- The rule over a batch always returns, and it reports a device exactly when at least 20 of the
  -- batch's events are failed logins of that device, an unnamed device counting as "unknown".
  pub match_batch_rules-exact :
      (evs : List SecurityEvent)
      → (fs : List Finding) × (match_batch_rules py evs ≡ value fs)
        × ((d : String) → reports d fs ≡ leb 20 (failed_logins d evs))
  unfolding match_batch_rules lookup
  match_batch_rules-exact evs =
      let t = tally empty_tally evs in
      let (fs, run, exact) =
        findings_of-reports t.latest t.failures (tally-Unique empty_tally evs tt) in
      (fs, run, λ d. exact d ∙ ap (leb 20) (tally-attempts empty_tally evs d ∙ omega arith))
