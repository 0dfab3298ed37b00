-- ===== src/Response/Policy/Modes.antt =====
-- What the response mode of a tenant permits (response/policy.py, safety rule 9).
use ai_soc.Prelude.{
  ℕ, String, ◌≡◌, ◌≢◌, refl, ap, inl, inr, not, none, some, List, [], ◌∷◌, arith, if◌then◌else◌,
  or_else, str_eq, eq_iff, mem_str, Bool-cases, List-cases,
}
use ai_soc.Python.{Python}
use ai_soc.Store.{Alert, Proposal, Db, Query, raised, answer}
use ai_soc.Response.Policy.{
  tenant_response_mode, propose_actions, severity_of, observe, respond, evaluate, acting_severities,
}

-- Two databases agree on all that a response can change.
pub record SameActions (db db' : Db) : Type 0 where
  pub commands : db'.commands ≡ db.commands
  pub playbooks : db'.playbooks ≡ db.playbooks
  pub executions : db'.executions ≡ db.executions
  pub approvals : db'.approvals ≡ db.approvals

SameActions-refl : (db : Db) → SameActions db db
SameActions-refl db = record {
  commands = refl;
  playbooks = refl;
  executions = refl;
  approvals = refl;
}

mode-closed :
    (db : Db) (tenant_id : ℕ)
    → db.response_mode tenant_id ≢ answer (some "approvals_only")
    → db.response_mode tenant_id ≢ answer (some "auto_contain")
    → tenant_response_mode db tenant_id ≡ "dry_run"
unfolding tenant_response_mode
mode-closed db t h k = mode-closed_query (db.response_mode t) h k
  where
    mode-closed_text :
        (m : String)
        → m ≢ "approvals_only"
        → m ≢ "auto_contain"
        → (if mem_str m ("dry_run" ∷ "approvals_only" ∷ "auto_contain" ∷ []) then m else "dry_run")
          ≡ "dry_run"
    mode-closed_text m h k =
        ground (arith, eq_iff "dry_run" m, eq_iff "approvals_only" m, eq_iff "auto_contain" m)

    mode-closed_query :
        (q : Query)
        → q ≢ answer (some "approvals_only")
        → q ≢ answer (some "auto_contain")
        → tenant_response_mode (record db { response_mode = λ _. q }) t ≡ "dry_run"
    mode-closed_query raised h k = refl
    mode-closed_query (answer none) h k = refl
    mode-closed_query (answer (some m)) h k =
        mode-closed_text m (λ e. h (ap (λ x. answer (some x)) e))
          (λ e. k (ap (λ x. answer (some x)) e))

module _ (py : Python) (db : Db) (a : Alert) where
  -- A lift of a fact about `respond` to the whole evaluation.
  pub evaluate_cases {ℓ} :
      (P : Db → Type ℓ)
      → P db
      → ((p : Proposal) (ps : List Proposal)
          → propose_actions py a ≡ p ∷ ps
          → P (respond py db a (or_else a.device_id "") (p ∷ ps)).1)
      → P (evaluate py db a).1
  unfolding evaluate
  evaluate_cases P same acts = elim (Bool-cases (str_eq (or_else a.device_id "") "")) [
    | inl missing ↦ rw missing same
    | inr present ↦ elim (Bool-cases (not (mem_str (severity_of py a) acting_severities))) [
      | inl low ↦ rw (present, low) same
      | inr high ↦ elim (List-cases (propose_actions py a)) [
        | inl nothing ↦ rw (present, high, nothing, evaluate) same
        | inr (p, ps, found) ↦ rw (present, high, found, evaluate) (acts p ps found)
      ]
    ]
  ]

  respond-SameActions :
      (device_id : String) (ps : List Proposal)
      → tenant_response_mode db a.tenant_id ≡ "dry_run"
      → SameActions db (respond py db a device_id ps).1
  unfolding respond observe
  respond-SameActions d ps m =
      rw m (record { commands = refl; playbooks = refl; executions = refl; approvals = refl })

  -- The response mode fails closed: unless it was read as `approvals_only` or `auto_contain`, so
  -- also when the query raised, found no row or found an unknown text, evaluating an alert changes
  -- no command, playbook, execution or approval request.
  pub evaluate-fails_closed :
      db.response_mode a.tenant_id ≢ answer (some "approvals_only")
      → db.response_mode a.tenant_id ≢ answer (some "auto_contain")
      → SameActions db (evaluate py db a).1
  evaluate-fails_closed h k = evaluate_cases (SameActions db) (SameActions-refl db) (λ p ps _.
      respond-SameActions (or_else a.device_id "") (p ∷ ps) (mode-closed db a.tenant_id h k))
