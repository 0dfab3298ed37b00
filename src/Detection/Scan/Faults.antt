-- ===== src/Detection/Scan/Faults.antt =====
-- Where the rules raise `TypeError` on what a sensor may send (rules.py, engine.py).
use ai_soc.Prelude.{
  ℕ, String, ◌≡◌, refl, inl, inr, Bool, true, Option, List, [], ◌∷◌, str_eq, Attempt, value,
  type_error, ◌>>=◌,
}
use mathlib.Core.List.{Memᴰ}
use mathlib.Core.List.Memᴰ
use ai_soc.Json.{arr, Items, cons, nil, get, items_of}
use ai_soc.Python.{Python}
use ai_soc.Store.{SecurityEvent}
use ai_soc.Detection.Rules.{Finding, section, texts_of, cmdline_text, rule_suspicious_cmdline}
use ai_soc.Detection.Match.{Intel, match_rules}
use ai_soc.Detection.Scan.{Pass, event_pass, events_pass, rule_pass}

-- A process event whose command line is a list that holds something other than a text.
pub record HasBadCommandLine (ev : SecurityEvent) : Type 0 where
  pub process : str_eq ev.event_type "process" ≡ true
  pub parts : Items
  pub listed : get "cmdline" (section ev) ≡ arr parts
  pub mixed : texts_of (items_of parts) ≡ type_error

module _ (py : Python) where
  cmdline_raises :
      (ev : SecurityEvent) (xs : Items)
      → get "cmdline" (section ev) ≡ arr xs
      → texts_of (items_of xs) ≡ type_error
      → cmdline_text py (section ev) ≡ type_error
  unfolding cmdline_text texts_of
  cmdline_raises ev nil e m = cc
  cmdline_raises ev (cons x xs) e m = rw e (rw m)

  match_rules_raises :
      (known : Option (List String)) (ev : SecurityEvent)
      → HasBadCommandLine ev
      → match_rules py known ev ≡ type_error
  unfolding match_rules
  match_rules_raises known ev bad = rw (rule_raises ev bad)
    where
      rule_raises :
          (x : SecurityEvent) → HasBadCommandLine x → rule_suspicious_cmdline py x ≡ type_error
      rule_raises x b =
          unfold rule_suspicious_cmdline in
          rw (b.process, cmdline_raises x b.parts b.listed b.mixed)

module _ (py : Python) (admits : Finding → Bool) (known : Option (List String)) (intel : Intel)
    (t : ℕ) where
  events_pass_raises :
      (ev : SecurityEvent) (p : Pass) (evs : List SecurityEvent)
      → Memᴰ ev evs
      → HasBadCommandLine ev
      → events_pass py admits known intel t p evs ≡ type_error
  unfolding events_pass
  events_pass_raises ev p [] m bad = elim m [ ]
  events_pass_raises ev p (x ∷ evs) m bad = elim (Memᴰ.cases_cons m) [
    | inl here ↦ rw (← here) (unfold event_pass in rw (match_rules_raises py known ev bad))
    | inr there ↦
        after (event_pass py admits known intel t p x) (λ q. events_pass_raises ev q evs there bad)
  ]
    where
      after :
          (a : Attempt Pass)
          → ((q : Pass) → events_pass py admits known intel t q evs ≡ type_error)
          → (a >>= λ q. events_pass py admits known intel t q evs) ≡ type_error
      after (value q) h = h q
      after type_error h = refl

  -- One event with such a command line makes the rules raise on any batch that holds it.
  pub rule_pass_raises :
      (ev : SecurityEvent) (p : Pass) (evs : List SecurityEvent)
      → Memᴰ ev evs
      → HasBadCommandLine ev
      → rule_pass py admits known intel t p evs ≡ type_error
  unfolding rule_pass
  rule_pass_raises ev p evs m bad = rw (events_pass_raises ev p evs m bad)
