-- ===== src/Response/Policy/Dedup.antt =====
-- The stacking of commands on unanswered identical ones (response/policy.py, safety rule 7).
use ai_soc.Prelude.{
  ℕ, ◌∙◌, ◌⊎◌, String, ◌≡◌, refl, sym, subst, ap, inl, inr, Bool, true, false, not, ◌&&◌, List, [],
  ◌∷◌, ◌++◌, arith, or_else, str_eq, eq_refl, ==_refl, mem_str, any_of, All, All-mono, is_none,
  Bool-cases, List-cases,
}
use ai_soc.Json.{Value, bool, int, text, obj, pos, end, field, same}
use ai_soc.Python.{Python}
use ai_soc.Store.{Alert, Proposal, Db}
use ai_soc.Response.Policy.{
  tenant_response_mode, propose_actions, command_exists, matches, new_command, add_command, issue,
  held_back, severity_of, confidence_of, auto_eligible, observe, contain, respond, evaluate,
  Outcome, get_system_playbook, acting_severities, pid_param, name_param,
}
use ai_soc.Response.Policy.Proposals.{Proposed, kills, blocks, removes, propose_actions-Proposed}

-- A proposal whose params compare equal to themselves. (A dictionary with a key twice would not.)
abbrev Reflexive : Proposal → Type 0
Reflexive p = same (obj p.params) (obj p.params) ≡ true

any_of-append {ℓ} :
    {A : Type ℓ} (f : A → Bool) (xs ys : List A) → any_of f xs ≡ true → any_of f (xs ++ ys) ≡ true
any_of-append f [] ys h = cc
any_of-append f (x ∷ xs) ys h = ground (arith, any_of-append f xs ys)

any_of-last {ℓ} :
    {A : Type ℓ} (f : A → Bool) (xs : List A) (x : A) → f x ≡ true → any_of f (xs ++ x ∷ []) ≡ true
any_of-last f [] x h = rw h
any_of-last f (y ∷ xs) x h = ground (arith, any_of-last f xs x h)

matches-new_command :
    (db : Db) (t : ℕ) (d : String) (p : Proposal)
    → Reflexive p
    → matches t d p (new_command db t d p) ≡ true
matches-new_command db t d p h = rw (==_refl t, eq_refl d, eq_refl p.action) h

-- Commands are only added, so what exists goes on to exist.
issue-keeps :
    (db : Db) (t : ℕ) (d : String) (ps : List Proposal) (created : List ℕ) (q : Proposal)
    → command_exists db t d q ≡ true
    → command_exists (issue db t d ps created).1 t d q ≡ true
unfolding issue
issue-keeps db t d [] created q h = h
issue-keeps db t d (p ∷ ps) created q h = elim (Bool-cases (command_exists db t d p)) [
  | inl old ↦ rw old (issue-keeps db t d ps created q h)
  | inr new ↦ rw new (
      issue-keeps (add_command db (new_command db t d p)) t d ps (created ++ db.next_id ∷ []) q (
        unfold command_exists in
        any_of-append (matches t d q) db.commands (new_command db t d p ∷ [])
          (unfold command_exists in h)))
]

issue_old :
    (db : Db) (t : ℕ) (d : String) (p : Proposal) (ps : List Proposal) (created : List ℕ)
    → command_exists db t d p ≡ true
    → issue db t d (p ∷ ps) created ≡ issue db t d ps created
unfolding issue
issue_old db t d p ps created h = rw h

issue_new :
    (db : Db) (t : ℕ) (d : String) (p : Proposal) (ps : List Proposal) (created : List ℕ)
    → command_exists db t d p ≡ false
    → issue db t d (p ∷ ps) created
      ≡ issue (add_command db (new_command db t d p)) t d ps (created ++ db.next_id ∷ [])
unfolding issue
issue_new db t d p ps created h = rw h

abbrev Exists : Db → ℕ → String → Proposal → Type 0
Exists db t d p = command_exists db t d p ≡ true

abbrev AllExist : ℕ → String → List Proposal → List ℕ × Db → Type 0
AllExist t d ps r = All (Exists r.1 t d) ps

issue-Exists :
    (db : Db) (t : ℕ) (d : String) (ps : List Proposal) (created : List ℕ)
    → All Reflexive ps
    → AllExist t d ps (issue db t d ps created)
issue-Exists db t d [] created h = tt
issue-Exists db t d (p ∷ ps) created h = elim (Bool-cases (command_exists db t d p)) [
  | inl old ↦
      subst (AllExist t d (p ∷ ps)) (sym (issue_old db t d p ps created old))
        (issue-keeps db t d ps created p old, issue-Exists db t d ps created h.1)
  | inr new ↦
      let db' = add_command db (new_command db t d p) in
      let created' = created ++ db.next_id ∷ [] in
      subst (AllExist t d (p ∷ ps)) (sym (issue_new db t d p ps created new)) (
        issue-keeps db' t d ps created' p (
            unfold command_exists in
            any_of-last (matches t d p) db.commands (new_command db t d p)
              (matches-new_command db t d p h.0)),
        issue-Exists db' t d ps created' h.1,
      )
]

issue_existing :
    (db : Db) (t : ℕ) (d : String) (ps : List Proposal) (created : List ℕ)
    → All (Exists db t d) ps
    → issue db t d ps created ≡ (created, db)
unfolding issue
issue_existing db t d [] created h = refl
issue_existing db t d (p ∷ ps) created h = rw h.0 (issue_existing db t d ps created h.1)

-- The proposals that an alert can lead to have one key, or the two keys `pid` and `name`.
text_params-Reflexive :
    (k s : String) → same (obj (field k (text s) end)) (obj (field k (text s) end)) ≡ true
unfolding same
text_params-Reflexive k s = rw (eq_refl k, eq_refl s)

kill_params-Reflexive :
    (pid name : Value)
    → Reflexive (record { action = "kill_process"; params = pid_param pid (name_param name) })
unfolding same
kill_params-Reflexive (int (pos n)) (text s) = ground (arith, eq_refl s)
kill_params-Reflexive (bool b) (text s) = ground (arith, eq_refl s)
kill_params-Reflexive _ (text s) = ground (arith, eq_refl s)
kill_params-Reflexive (int (pos n)) _ = ground arith
kill_params-Reflexive _ _ = ground arith

Proposed-Reflexive : (py : Python) (p : Proposal) → Proposed py p → Reflexive p
Proposed-Reflexive py p (kills pid name) = kill_params-Reflexive pid name
Proposed-Reflexive py p (blocks ip a g) = text_params-Reflexive "ip" ip
Proposed-Reflexive py p (removes path) = text_params-Reflexive "path" path

module _ (py : Python) where
  propose_actions-Reflexive : (a : Alert) → All Reflexive (propose_actions py a)
  propose_actions-Reflexive a =
      All-mono (Proposed py) Reflexive (Proposed-Reflexive py) (propose_actions py a)
        (propose_actions-Proposed py a)

  response_mode-issue :
      (db : Db) (t : ℕ) (d : String) (ps : List Proposal) (created : List ℕ)
      → (issue db t d ps created).1.response_mode ≡ db.response_mode
  unfolding issue
  response_mode-issue db t d [] created = refl
  response_mode-issue db t d (p ∷ ps) created = ground (
    arith,
    response_mode-issue db t d ps created,
    response_mode-issue (add_command db (new_command db t d p)) t d ps (created ++ db.next_id ∷ []),
  )

  -- whether a response issues commands
  acts : Db → Alert → List Proposal → Bool
  acts db a ps =
      let mode = tenant_response_mode db a.tenant_id in
      not (str_eq mode "dry_run")
      && (str_eq mode "auto_contain"
          && (auto_eligible py a && is_none (held_back (severity_of py a) (confidence_of py a) ps)))

  respond_inert :
      (db : Db) (a : Alert) (d : String) (ps : List Proposal)
      → acts db a ps ≡ false
      → ((respond py db a d ps).1.commands ≡ db.commands)
        × ((respond py db a d ps).1.response_mode ≡ db.response_mode)
  unfolding acts respond contain observe get_system_playbook
  respond_inert db a d ps h = ground arith

  respond-acts :
      (db : Db) (a : Alert) (d : String) (ps : List Proposal)
      → acts db a ps ≡ true
      → (respond py db a d ps).1 ≡ (issue db a.tenant_id d ps []).1
  unfolding acts respond contain
  respond-acts db a d ps h = ground arith

  acts_mode :
      (db db' : Db) (a : Alert) (ps : List Proposal)
      → db'.response_mode ≡ db.response_mode
      → acts db' a ps ≡ acts db a ps
  unfolding acts tenant_response_mode
  acts_mode db db' a ps e = rw e

  respond_twice :
      (db : Db) (a : Alert) (d : String) (ps : List Proposal)
      → All Reflexive ps
      → let db' = (respond py db a d ps).1 in (respond py db' a d ps).1.commands ≡ db'.commands
  respond_twice db a d ps h = elim (Bool-cases (acts db a ps)) [
    | inl on ↦
        let db' = (respond py db a d ps).1 in
        let db₁ = (issue db a.tenant_id d ps []).1 in
        let e = respond-acts db a d ps on in
        let same_mode =
          ap (λ (x : Db). x.response_mode) e ∙ response_mode-issue db a.tenant_id d ps [] in
        let on' = acts_mode db db' a ps same_mode ∙ on in
        let existing =
          subst (λ (x : Db). All (Exists x a.tenant_id d) ps) (sym e)
            (issue-Exists db a.tenant_id d ps [] h) in
        ap (λ (x : Db). x.commands) (respond-acts db' a d ps on')
        ∙ ap (λ (x : List ℕ × Db). x.1.commands) (issue_existing db' a.tenant_id d ps [] existing)
    | inr off ↦
        let db' = (respond py db a d ps).1 in
        let still_off = acts_mode db db' a ps (respond_inert db a d ps off).1 ∙ off in
        (respond_inert db' a d ps still_off).0
  ]

  -- The evaluation of an alert either never changes the database, or is the response.
  evaluate_split :
      (a : Alert)
      → ((db : Db) → (evaluate py db a).1 ≡ db)
        ⊎ ((ps : List Proposal) × All Reflexive ps
            × ((db : Db) → evaluate py db a ≡ respond py db a (or_else a.device_id "") ps))
  unfolding evaluate
  evaluate_split a = elim (Bool-cases (str_eq (or_else a.device_id "") "")) [
    | inl missing ↦ inl (λ db. rw missing)
    | inr present ↦ elim (Bool-cases (not (mem_str (severity_of py a) acting_severities))) [
      | inl low ↦ inl (λ db. rw (present, low))
      | inr high ↦ elim (List-cases (propose_actions py a)) [
        | inl nothing ↦ inl (λ db. rw (present, high, nothing, evaluate))
        | inr (p, ps, found) ↦ inr (
          p ∷ ps,
          rw found at (propose_actions-Reflexive a),
          λ db. rw (present, high, found, evaluate),
        )
      ]
    ]
  ]

  -- Evaluating the policy again for the same alert, with no command answered in between, adds no
  -- command to the queue, whatever the alert and the database.
  pub evaluate_twice :
      (db : Db) (a : Alert)
      → (evaluate py (evaluate py db a).1 a).1.commands ≡ (evaluate py db a).1.commands
  evaluate_twice db a = elim (evaluate_split a) [
    | inl inert ↦ ap (λ (x : Db). x.commands) (inert (evaluate py db a).1)
    | inr (ps, h, acts_as) ↦
        subst (λ (x : Outcome × Db). (evaluate py x.1 a).1.commands ≡ x.1.commands)
          (sym (acts_as db))
          (ap (λ (x : Outcome × Db). x.1.commands)
              (acts_as (respond py db a (or_else a.device_id "") ps).1)
            ∙ respond_twice db a (or_else a.device_id "") ps h)
  ]
