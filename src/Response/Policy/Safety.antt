-- ===== src/Response/Policy/Safety.antt =====
-- What the policy may put into the command queue (response/policy.py, safety rules 1 to 6 and 9).
use mathlib.Core.List.{append_assoc, append-nil}
use ai_soc.Prelude.{
  ℕ, ◌≤◌, String, ◌≡◌, refl, sym, ◌∙◌, ◌⊎◌, inl, inr, true, false, not, ◌&&◌, Option, none, some,
  List, [], ◌∷◌, ◌++◌, arith, ◌||◌, or_else, str_eq, eq_iff, starts_with, mem_str, keep, All,
  All-mono, Bool-cases, Option-cases, List-cases,
}
use ai_soc.Json.{end}
use ai_soc.Python.{Python}
use ai_soc.Store.{
  Alert, DeviceCommand, Proposal, Reason, Db, pending, auto_gate_not_met, destructive_action,
}
use ai_soc.Response.Policy.{
  command_actions, destructive_actions, tenant_response_mode, detector, propose_actions,
  command_exists, get_system_playbook, request_approval, new_command, add_command, issue,
  is_destructive, passes_destructive_gate, held_back, severity_of, confidence_of, auto_eligible,
  observe, contain, respond, evaluate, candidates, acting_severities,
}

abbrev proposal_of : DeviceCommand → Proposal
proposal_of c = record { action = c.action; params = c.params }

-- a fresh command of one tenant and device, for a proposal with the property `P`
pub record Granted (P : Proposal → Type 0) (tenant_id : ℕ) (device_id : String) (c : DeviceCommand)
    : Type 0 where
  pub tenant : c.tenant_id ≡ tenant_id
  pub device : c.device_id ≡ device_id
  pub fresh : c.status ≡ pending
  pub proposal : P (proposal_of c)

-- the table of commands grew by some rows, which all have the property `Q`
abbrev pub Grew : (DeviceCommand → Type 0) → Db → Db → Type 0
Grew Q db db' = (added : List DeviceCommand) × (db'.commands ≡ db.commands ++ added) × All Q added

Grew-refl :
    (Q : DeviceCommand → Type 0) (xs ys : List DeviceCommand)
    → ys ≡ xs
    → (added : List DeviceCommand) × (ys ≡ xs ++ added) × All Q added
Grew-refl Q xs ys e = ([], e ∙ sym (append-nil xs), tt)

issue-Grew :
    (P : Proposal → Type 0) (db : Db) (tenant_id : ℕ) (device_id : String) (ps : List Proposal)
    (created : List ℕ)
    → All P ps
    → Grew (Granted P tenant_id device_id) db (issue db tenant_id device_id ps created).1
unfolding issue
issue-Grew P db t d [] created h = Grew-refl _ _ _ refl
issue-Grew P db t d (p ∷ ps) created h = elim (Bool-cases (command_exists db t d p)) [
  | inl old ↦ rw old (issue-Grew P db t d ps created h.1)
  | inr new ↦
      let c = new_command db t d p in
      let (added, e, g) = issue-Grew P (add_command db c) t d ps (created ++ db.next_id ∷ []) h.1 in
      rw new (
        c ∷ added,
        e ∙ append_assoc db.commands (c ∷ []) added,
        (record { tenant = refl; device = refl; fresh = refl; proposal = h.0 }, g),
      )
]

pub commands-request_approval :
    (db : Db) (a : Alert) (actions : List Proposal) (reason : Reason)
    → (request_approval db a actions reason).1.commands ≡ db.commands
unfolding request_approval get_system_playbook
commands-request_approval db a actions reason = ground arith

pub commands-observe :
    (py : Python) (db : Db) (a : Alert) (actions : List Proposal)
    → (observe py db a actions).1.commands ≡ db.commands
unfolding observe
commands-observe py db a actions = refl

-- What the allowlist and the strict gate leave of a proposal.
pub record Cleared (severity : String) (confidence : ℕ) (p : Proposal) : Type 0 where
  pub gate :
      mem_str p.action destructive_actions ≡ true → (severity ≡ "CRITICAL") × (95 ≤ confidence)

passes-gate :
    (severity : String) (confidence : ℕ)
    → passes_destructive_gate severity confidence ≡ true
    → (severity ≡ "CRITICAL") × (95 ≤ confidence)
passes-gate severity confidence h = ground (arith, eq_iff severity "CRITICAL")

held_back-Cleared :
    (severity : String) (confidence : ℕ) (ps : List Proposal)
    → held_back severity confidence ps ≡ none
    → All (Cleared severity confidence) ps
unfolding held_back
held_back-Cleared s c [] h = tt
held_back-Cleared s c (p ∷ ps) h =
    elim (Bool-cases (is_destructive p && not (passes_destructive_gate s c))) [
      | inl held ↦ cc (rw (held, held_back) at h)
      | inr free ↦ (
        record { gate = λ d. passes-gate s c (ground arith) },
        held_back-Cleared s c ps (rw free at h),
      )
    ]

keep-allowed :
    (ps : List Proposal)
    → All
        (λ p. mem_str p.action command_actions ≡ true)
        (keep (λ p. mem_str p.action command_actions) ps)
keep-allowed [] = tt
keep-allowed (p ∷ ps) = elim (Bool-cases (mem_str p.action command_actions)) [
  | inl yes_ ↦ rw yes_ (yes_, keep-allowed ps)
  | inr no_ ↦ rw no_ (keep-allowed ps)
]

All-and :
    (P Q : Proposal → Type 0) (ps : List Proposal) → All P ps → All Q ps → All (λ p. P p × Q p) ps
All-and P Q [] h k = tt
All-and P Q (p ∷ ps) h k = ((h.0, k.0), All-and P Q ps h.1 k.1)

-- The proposals of an alert are on the allowlist.
pub propose_actions-allowed :
    (py : Python) (a : Alert)
    → All (λ p. mem_str p.action command_actions ≡ true) (propose_actions py a)
unfolding propose_actions
propose_actions-allowed py a =
    keep-allowed (candidates py (or_else a.rule_id "") (or_else a.evidence end))

-- Everything that must hold of a command which the policy creates for the alert `a`.
pub record Authorised (py : Python) (db : Db) (a : Alert) (c : DeviceCommand) : Type 0 where
  pub tenant : c.tenant_id ≡ a.tenant_id
  pub device : a.device_id ≡ some c.device_id
  pub fresh : c.status ≡ pending
  pub allowed : mem_str c.action command_actions ≡ true
  pub mode : tenant_response_mode db a.tenant_id ≡ "auto_contain"
  pub severity : (severity_of py a ≡ "HIGH") ⊎ (severity_of py a ≡ "CRITICAL")
  pub confident : 80 ≤ confidence_of py a
  pub rules_based : starts_with (detector py a) "rules-" ≡ true
  pub gate :
      mem_str c.action destructive_actions ≡ true
      → (severity_of py a ≡ "CRITICAL") × (95 ≤ confidence_of py a)

module _ (py : Python) (db : Db) (a : Alert) where
  Vetted : Proposal → Type 0
  Vetted p =
      Cleared (severity_of py a) (confidence_of py a) p × (mem_str p.action command_actions ≡ true)

  contain-Grew :
      (device_id : String) (ps : List Proposal)
      → All (λ p. mem_str p.action command_actions ≡ true) ps
      → Grew (Granted Vetted a.tenant_id device_id) db (contain py db a device_id ps).1
  unfolding contain Vetted
  contain-Grew d ps h = elim (Option-cases (held_back (severity_of py a) (confidence_of py a) ps)) [
    | inl free ↦
        rw (free, contain)
          (issue-Grew Vetted db a.tenant_id d ps []
            (All-and _ _ ps (held_back-Cleared (severity_of py a) (confidence_of py a) ps free) h))
    | inr (p, held) ↦
        rw (held, contain)
          (Grew-refl _ _ _ (commands-request_approval db a ps (destructive_action p.action)))
  ]

  eligible :
      auto_eligible py a ≡ true
      → ((severity_of py a ≡ "HIGH") ⊎ (severity_of py a ≡ "CRITICAL"))
        × (80 ≤ confidence_of py a)
        × (starts_with (detector py a) "rules-" ≡ true)
  unfolding auto_eligible
  eligible h =
      ground (arith, eq_iff "HIGH" (severity_of py a), eq_iff "CRITICAL" (severity_of py a))

  authorise :
      (device_id : String)
      → a.device_id ≡ some device_id
      → tenant_response_mode db a.tenant_id ≡ "auto_contain"
      → auto_eligible py a ≡ true
      → (c : DeviceCommand) → Granted Vetted a.tenant_id device_id c
      → Authorised py db a c
  unfolding Vetted
  authorise d e m el c g = record {
    tenant = g.tenant;
    device = rw g.device e;
    fresh = g.fresh;
    allowed = g.proposal.1;
    mode = m;
    severity = (eligible el).0;
    confident = (eligible el).1;
    rules_based = (eligible el).2;
    gate = g.proposal.0.gate;
  }

  respond-Grew :
      (device_id : String) (ps : List Proposal)
      → a.device_id ≡ some device_id
      → All (λ p. mem_str p.action command_actions ≡ true) ps
      → Grew (Authorised py db a) db (respond py db a device_id ps).1
  unfolding respond
  respond-Grew d ps e h =
      let mode = tenant_response_mode db a.tenant_id in
      elim (Bool-cases (str_eq mode "dry_run")) [
        | inl dry ↦ rw dry (Grew-refl _ _ _ (commands-observe py db a ps))
        | inr wet ↦
            elim (Bool-cases (not (str_eq mode "auto_contain") || not (auto_eligible py a))) [
              | inl gated ↦
                  rw (wet, gated)
                    (Grew-refl _ _ _ (commands-request_approval db a ps auto_gate_not_met))
              | inr free ↦
                  let (added, q, g) = contain-Grew d ps h in
                  rw (wet, free)
                    (
                      added,
                      q,
                      All-mono _ _
                          (authorise d e (ground (arith, eq_iff mode "auto_contain"))
                            (ground arith))
                          added g,
                    )
            ]
      ]

  -- Whatever the alert and the database, evaluating the policy only appends commands to the queue,
  -- and each of them is a pending command for the device and tenant of the alert, with an allowed
  -- action, in a tenant whose mode is `auto_contain`, for an alert of severity HIGH or CRITICAL,
  -- confidence at least 80 and a rules-based detector; a destructive one also has severity
  -- CRITICAL and confidence at least 95.
  pub evaluate-Authorised : Grew (Authorised py db a) db (evaluate py db a).1
  unfolding evaluate
  evaluate-Authorised = elim (Bool-cases (str_eq (or_else a.device_id "") "")) [
    | inl missing ↦ rw missing (Grew-refl _ _ _ refl)
    | inr present ↦ elim (Bool-cases (not (mem_str (severity_of py a) acting_severities))) [
      | inl low ↦ rw (present, low) (Grew-refl _ _ _ refl)
      | inr acts ↦ elim (List-cases (propose_actions py a)) [
        | inl nothing ↦ rw (present, acts, nothing, evaluate) (Grew-refl _ _ _ refl)
        | inr (p, ps, found) ↦
            rw (present, acts, found, evaluate)
              (respond-Grew (or_else a.device_id "") (p ∷ ps) (device_present a.device_id present)
                (rw found at (propose_actions-allowed py a)))
      ]
    ]
  ]
    where
      device_present :
          (o : Option String) → str_eq (or_else o "") "" ≡ false → o ≡ some (or_else o "")
      device_present none h = cc
      device_present (some d) h = refl
