-- ===== src/Soar/Playbooks/Approvals.antt =====
-- What runs with an approval and what without one (playbook_engine.py).
use ai_soc.Prelude.{
  String, ◌≡◌, refl, true, false, none, some, List, [], ◌∷◌, ◌++◌, str_eq, eq_refl, eq_iff, ap,
  str_append, All, All-append, Bool-cases, inl, inr,
}
use mathlib.Core.List.{Memᴰ}
use ai_soc.Prelude.Assoc.{Assoc, lookup, insert, remove, lookup-insert, lookup-remove}
use ai_soc.Soar.Playbooks.{
  Step, Spec, playbooks, Execution, Pending, PlaybookEngine, RunResult, unknown_playbook, failed,
  pending_approval, success, approval_id_of, target_of, run_steps, execute_playbook, invalid,
  executed, approve_action,
}

-- the steps that a run reports as executed
abbrev pub executed_of : RunResult → List Execution
executed_of unknown_playbook = []
executed_of (failed f done) = done
executed_of (pending_approval id done) = done
executed_of (success done) = done

-- An execution that a step of the list asked for, on the target it names, without an approval.
abbrev pub Automatic : Assoc String → List Step → Execution → Type 0
Automatic alert steps x =
    (s : Step) × Memᴰ s steps
    × (s.action ≡ x.action)
    × (target_of s.target_from alert ≡ x.target)
    × (s.approval_required ≡ false)

pending_id :
    {a b : String} {x y : List Execution} → pending_approval a x ≡ pending_approval b y → a ≡ b
pending_id h = cc

module _ (prefix : String) (alert : Assoc String) (all : List Step) where
  run_steps-Automatic :
      (e : PlaybookEngine) (done : List Execution) (steps : List Step)
      → ((s : Step) → Memᴰ s steps → Memᴰ s all)
      → All (Automatic alert all) done
      → All (Automatic alert all) (executed_of (run_steps prefix alert e done steps).0)
  unfolding run_steps
  run_steps-Automatic e done [] part h = h
  run_steps-Automatic e done (s ∷ steps) part h =
      elim (Bool-cases (str_eq (target_of s.target_from alert) "")) [
        | inl missing ↦ rw missing h
        | inr found ↦ elim (Bool-cases s.approval_required) [
          | inl asks ↦ rw (found, asks) h
          | inr free ↦
              let x : Execution = record {
                action = s.action;
                target = target_of s.target_from alert;
              } in
              let one : Automatic alert all x = (s, part s (Memᴰ.head refl), refl, refl, free) in
              rw (found, free)
                (run_steps-Automatic e (done ++ x ∷ []) steps (λ r m. part r (Memᴰ.tail m))
                  (All-append (Automatic alert all) done (x ∷ []) h (one, tt)))
        ]
      ]

  -- A run that waits for an approval has filed the step that asked for it under the approval's id.
  run_steps-filed :
      (e : PlaybookEngine) (done : List Execution) (steps : List Step) (id : String)
      (out : List Execution)
      → (run_steps prefix alert e done steps).0 ≡ pending_approval id out
      → (s : Step) × Memᴰ s steps
        × (s.approval_required ≡ true)
        × (lookup id (run_steps prefix alert e done steps).1.pending_approvals
            ≡ some (record {
              action = s.action;
              target = target_of s.target_from alert;
              alert = alert;
            }))
  unfolding run_steps
  run_steps-filed e done [] id out h = cc
  run_steps-filed e done (s ∷ steps) id out h =
      elim (Bool-cases (str_eq (target_of s.target_from alert) "")) [
        | inl missing ↦ cc (rw missing at h)
        | inr found ↦ elim (Bool-cases s.approval_required) [
          | inl asks ↦
              let filed = rw (found, asks) at h in
              let k = approval_id_of prefix (target_of s.target_from alert) alert in
              let entry : Pending = record {
                action = s.action;
                target = target_of s.target_from alert;
                alert = alert;
              } in
              let key : str_eq k id ≡ true = (eq_iff k id).1 (pending_id filed) in
              let stored : lookup id (insert k entry e.pending_approvals) ≡ some entry =
                rw (lookup-insert k id entry e.pending_approvals, key) refl in
              (s, Memᴰ.head refl, asks, rw (found, asks) stored)
          | inr free ↦
              let x : Execution = record {
                action = s.action;
                target = target_of s.target_from alert;
              } in
              let run = rw (found, free) at h in
              let (r, m, asks, stored) = run_steps-filed e (done ++ x ∷ []) steps id out run in
              (r, Memᴰ.tail m, asks, rw (found, free) stored)
        ]
      ]

-- Whatever a playbook reports as executed was a step of it that needs no approval, on the target
-- that the alert names for that step.
pub execute_playbook-Automatic :
    (e : PlaybookEngine) (name : String) (alert : Assoc String) (spec : Spec)
    → lookup name playbooks ≡ some spec
    → All (Automatic alert spec.steps) (executed_of (execute_playbook e name alert).0)
unfolding execute_playbook
execute_playbook-Automatic e name alert spec h =
    rw (execute_playbook, h)
      (run_steps-Automatic spec.approval_prefix alert spec.steps e [] spec.steps (λ s m. m) tt)

approve_action-found :
    (e : PlaybookEngine) (id : String) (p : Pending)
    → lookup id e.pending_approvals ≡ some p
    → approve_action e id ≡ (
      executed (record { action = p.action; target = p.target }) (str_append "rb_" id),
      record { pending_approvals = remove id e.pending_approvals },
    )
unfolding approve_action
approve_action-found e id p h = rw (approve_action, h) refl

approve_action-missing :
    (e : PlaybookEngine) (id : String)
    → lookup id e.pending_approvals ≡ none
    → (approve_action e id).0 ≡ invalid
unfolding approve_action
approve_action-missing e id h = rw (approve_action, h) refl

approve_action-once :
    (e : PlaybookEngine) (id : String) (p : Pending)
    → lookup id e.pending_approvals ≡ some p
    → (approve_action (approve_action e id).1 id).0 ≡ invalid
approve_action-once e id p h = rw (approve_action-found e id p h) (
    approve_action-missing (record { pending_approvals = remove id e.pending_approvals }) id
      (rw (lookup-remove id id e.pending_approvals, eq_refl id) refl))

-- A playbook that waits for an approval has reached a step that needs one: approving its id
-- executes exactly that step's action on its target, and approving the id again is refused.
pub execute_playbook-approve :
    (e : PlaybookEngine) (name : String) (alert : Assoc String) (spec : Spec) (id : String)
    (out : List Execution)
    → lookup name playbooks ≡ some spec
    → (execute_playbook e name alert).0 ≡ pending_approval id out
    → let after = (execute_playbook e name alert).1 in
      ((s : Step) × Memᴰ s spec.steps
        × (s.approval_required ≡ true)
        × ((approve_action after id).0
            ≡ executed
                (record { action = s.action; target = target_of s.target_from alert })
                (str_append "rb_" id)))
      × ((approve_action (approve_action after id).1 id).0 ≡ invalid)
unfolding execute_playbook
execute_playbook-approve e name alert spec id out h run =
    let ran = rw (execute_playbook, h) at run in
    let (s, m, asks, stored) =
      run_steps-filed spec.approval_prefix alert spec.steps e [] spec.steps id out ran in
    let after = (run_steps spec.approval_prefix alert e [] spec.steps).1 in
    let entry : Pending = record {
      action = s.action;
      target = target_of s.target_from alert;
      alert = alert;
    } in
    rw (execute_playbook, h)
      (
        (s, m, asks, ap (λ r. r.0) (approve_action-found after id entry stored)),
        approve_action-once after id entry stored,
      )
