-- ===== src/Soar/Playbooks.antt =====
-- intelligence_engine/soar/playbook_engine.py: declarative playbooks, run up to the first step that
-- needs an approval. Alert fields are texts; messages for people are left out.
pub mod Approvals
use ai_soc.Prelude.{
  String, ◌≡◌, Bool, true, false, Option, none, some, List, [], ◌∷◌, ◌++◌, if◌then◌else◌, str_eq,
  str_append, or_else, keep, not,
}
use ai_soc.Prelude.Assoc.{Assoc, lookup, insert, remove}

pub record Step : Type 0 where
  pub action : String
  pub target_from : String
  pub approval_required : Bool

pub record Spec : Type 0 where
  pub approval_prefix : String
  pub steps : List Step

abbrev pub credential_attack : Spec
credential_attack = record {
  approval_prefix = "CA";
  steps = record { action = "block_user"; target_from = "user"; approval_required = true } ∷ [];
}

abbrev pub malware : Spec
malware = record {
  approval_prefix = "MW";
  steps =
      record { action = "isolate_host"; target_from = "host"; approval_required = false }
      ∷ record { action = "wipe_host"; target_from = "host"; approval_required = true }
      ∷ [];
}

abbrev pub playbooks : Assoc Spec
playbooks = ("Credential Attack", credential_attack) ∷ ("Malware", malware) ∷ []

pub record Execution : Type 0 where
  pub action : String
  pub target : String

pub record Pending : Type 0 where
  pub action : String
  pub target : String
  pub alert : Assoc String

pub record PlaybookEngine : Type 0 where
  pub pending_approvals : Assoc Pending

pub data RunResult : Type 0 where
  unknown_playbook : RunResult
  failed : String → List Execution → RunResult
  pending_approval : String → List Execution → RunResult
  success : List Execution → RunResult

abbrev pub approval_id_of : String → String → Assoc String → String
unfolding lookup
approval_id_of prefix target alert =
    str_append prefix
      (str_append "_" (str_append target (str_append "_" (or_else (lookup "id" alert) "unknown"))))

-- `alert.get(field) if field else None`, where an empty text is as good as none
abbrev pub target_of : String → Assoc String → String
unfolding lookup
target_of target_from alert =
    if str_eq target_from "" then "" else or_else (lookup target_from alert) ""

-- the loop over the steps, with the steps executed so far
unfoldable pub run_steps :
    String → Assoc String → PlaybookEngine → List Execution → List Step → RunResult × PlaybookEngine
unfolding target_of approval_id_of insert
run_steps prefix alert e executed [] = (success executed, e)
run_steps prefix alert e executed (s ∷ steps) =
    let target = target_of s.target_from alert in
    let rest =
      run_steps prefix alert e (executed ++ record { action = s.action; target = target } ∷ [])
        steps in
    let approval_id = approval_id_of prefix target alert in
    let entry : Pending = record { action = s.action; target = target; alert = alert } in
    if str_eq target ""
    then (failed s.target_from executed, e)
    else if s.approval_required
    then (
      pending_approval approval_id executed,
      record { pending_approvals = insert approval_id entry e.pending_approvals },
    )
    else rest

unfoldable pub execute_playbook :
    PlaybookEngine → String → Assoc String → RunResult × PlaybookEngine
unfolding lookup run_steps
execute_playbook e name alert = elim (lookup name playbooks) [
  | none ↦ (unknown_playbook, e)
  | some spec ↦ run_steps spec.approval_prefix alert e [] spec.steps
]

pub data ApprovalResult : Type 0 where
  invalid : ApprovalResult
  executed : Execution → String → ApprovalResult

pub approve_action : PlaybookEngine → String → ApprovalResult × PlaybookEngine
unfolding lookup remove
approve_action e approval_id = elim (lookup approval_id e.pending_approvals) [
  | none ↦ (invalid, e)
  | some p ↦ (
    executed (record { action = p.action; target = p.target }) (str_append "rb_" approval_id),
    record { pending_approvals = remove approval_id e.pending_approvals },
  )
]
