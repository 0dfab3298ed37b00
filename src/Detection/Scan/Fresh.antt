-- ===== src/Detection/Scan/Fresh.antt =====
-- The fingerprints of one pass (engine.py, realtime.py).
use ai_soc.Prelude.{
  ℕ, String, ◌≡◌, ◌≢◌, refl, sym, ◌∙◌, subst, inl, inr, Bool, true, false, Option, List, [], ◌∷◌,
  ◌++◌, arith, if◌then◌else◌, str_eq, eq_iff, eq_refl, mem_str, Bool-cases, All, All-append,
  All-mono, Attempt, value, type_error, ◌>>=◌, or_else,
}
use ai_soc.Json.{Value, text, null, Fields, end, field, get}
use ai_soc.Python.{Python}
use ai_soc.Store.{Alert, SecurityEvent}
use ai_soc.Detection.Rules.{Finding}
use ai_soc.Detection.Match.{Intel, match_rules, match_ioc_rules}
use ai_soc.Detection.Batch.{match_batch_rules}
use ai_soc.Detection.Scan.{
  put, build_rule_alert, Pass, take_finding, take_findings, event_pass, events_pass, batch_pass,
  rule_pass,
}

get-put :
    (k j : String) (v : Value) (fs : Fields)
    → get k (put j v fs) ≡ (if str_eq j k then v else get k fs)
get-put k j v end = refl
get-put k j v (field i w fs) = ground (arith, eq_iff i j, eq_iff i k, eq_iff j k, get-put k j v fs)

abbrev pub fingerprint_of : Alert → Value
fingerprint_of a = get "fingerprint" (or_else a.evidence end)

pub fingerprint-build_rule_alert :
    (t : ℕ) (id : Value) (device : String) (f : Finding)
    → fingerprint_of (build_rule_alert t id device f) ≡ text f.fingerprint
unfolding build_rule_alert
fingerprint-build_rule_alert t id device f = simp get-put

-- No two alerts of a list share a fingerprint.
abbrev pub Distinct : List Alert → Type 0
Distinct [] = Unit {0}
Distinct (a ∷ rest) = All (λ b. fingerprint_of a ≢ fingerprint_of b) rest × Distinct rest

Distinct-append :
    (xs : List Alert) (x : Alert)
    → Distinct xs
    → All (λ b. fingerprint_of b ≢ fingerprint_of x) xs
    → Distinct (xs ++ x ∷ [])
Distinct-append [] x d h = (tt, tt)
Distinct-append (a ∷ xs) x d h = (
  All-append (λ b. fingerprint_of a ≢ fingerprint_of b) xs (x ∷ []) d.0 (h.0, tt),
  Distinct-append xs x d.1 h.1,
)

-- An alert with a fingerprint that is among the seen ones, and was not at the start.
pub record Tracked (start seen : List String) (a : Alert) : Type 0 where
  pub print : String
  pub has_print : fingerprint_of a ≡ text print
  pub noted : mem_str print seen ≡ true
  pub new : mem_str print start ≡ false

pub record IsFresh (start : List String) (p : Pass) : Type 0 where
  pub grown : (s : String) → mem_str s start ≡ true → mem_str s p.seen ≡ true
  pub tracked : All (Tracked start p.seen) p.drafts
  pub distinct : Distinct p.drafts

contrapose :
    (start seen : List String) (s : String)
    → (mem_str s start ≡ true → mem_str s seen ≡ true)
    → mem_str s seen ≡ false
    → mem_str s start ≡ false
contrapose start seen s h no_ = ground (arith, h)

text_differs :
    (seen : List String) (r s : String)
    → mem_str r seen ≡ true
    → mem_str s seen ≡ false
    → text r ≢ text s
text_differs seen r s y n q =
    let same_text : r ≡ s = cc in
    let listed : mem_str s seen ≡ true = subst (λ x. mem_str x seen ≡ true) same_text y in
    ground (arith, listed, n)

module _ (start : List String) (admits : Finding → Bool) (t : ℕ) where
  take_finding-IsFresh :
      (id : Value) (device : String) (p : Pass) (f : Finding)
      → IsFresh start p
      → IsFresh start (take_finding admits t id device p f)
  unfolding take_finding
  take_finding-IsFresh id device p f h = elim (Bool-cases (admits f)) [
    | inr rejected ↦ rw rejected h
    | inl admitted ↦ elim (Bool-cases (mem_str f.fingerprint p.seen)) [
      | inl old ↦ rw (admitted, old) h
      | inr fresh ↦
          let x = build_rule_alert t id device f in
          let print = fingerprint-build_rule_alert t id device f in
          let wider = λ (a : Alert) (k : Tracked start p.seen a). widen a k in
          rw (admitted, fresh)
            (record {
              grown = λ s m. ground (arith, h.grown s m);
              tracked =
                  All-append (Tracked start (f.fingerprint ∷ p.seen)) p.drafts (x ∷ [])
                    (All-mono (Tracked start p.seen) (Tracked start (f.fingerprint ∷ p.seen)) wider
                      p.drafts h.tracked)
                    (
                      record {
                        print = f.fingerprint;
                        has_print = print;
                        noted = rw (eq_refl f.fingerprint);
                        new = contrapose start p.seen f.fingerprint (h.grown f.fingerprint) fresh;
                      },
                      tt,
                    );
              distinct = Distinct-append p.drafts x h.distinct (
                  All-mono (Tracked start p.seen) (λ b. fingerprint_of b ≢ fingerprint_of x)
                    (λ b k. differs b k fresh print) p.drafts h.tracked);
            })
    ]
  ]
    where
      widen : (a : Alert) → Tracked start p.seen a → Tracked start (f.fingerprint ∷ p.seen) a
      widen a k = record {
        print = k.print;
        has_print = k.has_print;
        noted = ground (arith, k.noted);
        new = k.new;
      }

      differs :
          (b : Alert)
          → Tracked start p.seen b
          → mem_str f.fingerprint p.seen ≡ false
          → fingerprint_of (build_rule_alert t id device f) ≡ text f.fingerprint
          → fingerprint_of b ≢ fingerprint_of (build_rule_alert t id device f)
      differs b k fresh print e =
          text_differs p.seen k.print f.fingerprint k.noted fresh (sym k.has_print ∙ e ∙ print)

  take_findings-IsFresh :
      (id : Value) (device : String) (p : Pass) (fs : List Finding)
      → IsFresh start p
      → IsFresh start (take_findings admits t id device p fs)
  unfolding take_findings
  take_findings-IsFresh id device p [] h = h
  take_findings-IsFresh id device p (f ∷ fs) h =
      take_findings-IsFresh id device (take_finding admits t id device p f) fs
        (take_finding-IsFresh id device p f h)

  batch_pass-IsFresh :
      (py : Python) (known : Option (List String)) (intel : Intel) (p : Pass) (fs : List Finding)
      → IsFresh start p
      → IsFresh start (batch_pass py admits known intel t p fs)
  unfolding batch_pass
  batch_pass-IsFresh py known intel p [] h = h
  batch_pass-IsFresh py known intel p (f ∷ fs) h =
      batch_pass-IsFresh py known intel (take_finding admits t null f.device_id p f) fs
        (take_finding-IsFresh null f.device_id p f h)

-- A computation that succeeds first succeeds in its first step.
pub bind-value :
    {A B : Type 0} (m : Attempt A) (f : A → Attempt B) (b : B)
    → (m >>= f) ≡ value b
    → (a : A) × (m ≡ value a) × (f a ≡ value b)
bind-value (value a) f b h = (a, refl, h)
bind-value type_error f b h = cc

value_inj : {A : Type 0} {a b : A} → value a ≡ value b → a ≡ b
value_inj h = cc

module _ (py : Python) (admits : Finding → Bool) (known : Option (List String)) (intel : Intel)
    (t : ℕ) (start : List String) where
  event_pass-IsFresh :
      (p q : Pass) (ev : SecurityEvent)
      → IsFresh start p
      → event_pass py admits known intel t p ev ≡ value q
      → IsFresh start q
  unfolding event_pass
  event_pass-IsFresh p q ev h run =
      let (found, first, rest) =
        bind-value (match_rules py known ev)
          (λ fs. do
            iocs ← match_ioc_rules py intel ev
            let p₁ = take_findings admits t (text ev.id) ev.device_id p fs
            value (take_findings admits t (text ev.id) ev.device_id p₁ iocs))
          q run in
      let p₁ = take_findings admits t (text ev.id) ev.device_id p found in
      let (iocs, second, last) =
        bind-value (match_ioc_rules py intel ev)
          (λ fs. value (take_findings admits t (text ev.id) ev.device_id p₁ fs)) q rest in
      subst (IsFresh start) (value_inj last) (
        take_findings-IsFresh start admits t (text ev.id) ev.device_id p₁ iocs
          (take_findings-IsFresh start admits t (text ev.id) ev.device_id p found h))

  events_pass-IsFresh :
      (p q : Pass) (evs : List SecurityEvent)
      → IsFresh start p
      → events_pass py admits known intel t p evs ≡ value q
      → IsFresh start q
  unfolding events_pass
  events_pass-IsFresh p q [] h run = subst (IsFresh start) (value_inj run) h
  events_pass-IsFresh p q (ev ∷ evs) h run =
      let (p₁, first, rest) =
        bind-value (event_pass py admits known intel t p ev)
          (λ r. events_pass py admits known intel t r evs) q run in
      events_pass-IsFresh p₁ q evs (event_pass-IsFresh p p₁ ev h first) rest

  -- A detection pass over any events raises no alert twice: from the fingerprints already seen and
  -- no drafts, whatever the pass drafts carries a fingerprint that was not seen before, no two of
  -- its alerts carry the same one, and each is recorded as seen.
  pub rule_pass-IsFresh :
      (q : Pass) (evs : List SecurityEvent)
      → rule_pass py admits known intel t (record { seen = start; drafts = [] }) evs ≡ value q
      → IsFresh start q
  unfolding rule_pass
  rule_pass-IsFresh q evs run =
      let begin : Pass = record { seen = start; drafts = [] } in
      let (p₁, first, rest) =
        bind-value (events_pass py admits known intel t begin evs)
          (λ p. do
            found ← match_batch_rules py evs
            value (batch_pass py admits known intel t p found))
          q run in
      let (found, second, last) =
        bind-value (match_batch_rules py evs)
          (λ fs. value (batch_pass py admits known intel t p₁ fs)) q rest in
      subst (IsFresh start) (value_inj last) (
        batch_pass-IsFresh start admits t py known intel p₁ found (
          events_pass-IsFresh begin p₁ evs
            (record { grown = λ s m. m; tracked = tt; distinct = tt }) first))
