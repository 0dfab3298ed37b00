-- ===== src/Response/Policy/Proposals.antt =====
-- The shapes that a proposed action can have (response/policy.py, _propose_actions).
use ai_soc.Prelude.{
  String, ◌≡◌, inl, inr, Bool, true, false, not, ◌&&◌, List, [], ◌∷◌, arith, if◌then◌else◌, or_else,
  str_eq, keep, take, All, All-append, Bool-cases,
}
use ai_soc.Json.{Value, text, Fields, end, field, get, fields_of, list_of, or_value}
use ai_soc.Python.{Python}
use ai_soc.Store.{Alert, Proposal}
use ai_soc.Response.Policy.{
  propose_actions, candidates, block_address, block_all, block_matched, pid_param, name_param,
  when_any_param, remove_path, is_allowed,
}

module _ (py : Python) where
  pub data Proposed : Proposal → Type 0 where
    kills :
        (pid name : Value)
        → Proposed (record { action = "kill_process"; params = pid_param pid (name_param name) })
    blocks :
        (ip : String)
        → py.is_address ip ≡ true
        → py.is_global ip ≡ true
        → Proposed (record { action = "block_ip"; params = field "ip" (text ip) end })
    removes :
        (path : String)
        → Proposed (record { action = "remove_persistence"; params = field "path" (text path) end })

  block_address-Proposed : (ip : String) → All Proposed (block_address py ip)
  unfolding block_address
  block_address-Proposed ip =
      elim (Bool-cases (not (str_eq ip "") && (py.is_address ip && py.is_global ip))) [
        | inl ok ↦ rw ok (blocks ip (ground (arith, ok)) (ground (arith, ok)), tt)
        | inr bad ↦ rw bad tt
      ]

  block_all-Proposed : (vs : List Value) → All Proposed (block_all py vs)
  unfolding block_all
  block_all-Proposed [] = tt
  block_all-Proposed (v ∷ vs) =
      All-append Proposed _ _ (block_address-Proposed _) (block_all-Proposed vs)

  remove_path-Proposed : (path : String) → All Proposed (remove_path path)
  remove_path-Proposed path = elim (Bool-cases (not (str_eq path ""))) [
    | inl ok ↦ rw ok (removes path, tt)
    | inr bad ↦ rw bad tt
  ]

  any_param-Proposed :
      (fs : Fields)
      → Proposed (record { action = "kill_process"; params = fs })
      → All Proposed (when_any_param fs)
  any_param-Proposed end h = tt
  any_param-Proposed (field k v fs) h = (h, tt)

  keep-Proposed :
      (f : Proposal → Bool) (ps : List Proposal) → All Proposed ps → All Proposed (keep f ps)
  keep-Proposed f [] h = tt
  keep-Proposed f (p ∷ ps) h = elim (Bool-cases (f p)) [
    | inl ok ↦ rw ok (h.0, keep-Proposed f ps h.1)
    | inr bad ↦ rw bad (keep-Proposed f ps h.1)
  ]

  if-Proposed :
      (b : Bool) (xs ys : List Proposal)
      → All Proposed xs
      → All Proposed ys
      → All Proposed (if b then xs else ys)
  if-Proposed true xs ys h k = h
  if-Proposed false xs ys h k = k

  candidates-Proposed : (rule_id : String) (ev : Fields) → All Proposed (candidates py rule_id ev)
  unfolding candidates
  candidates-Proposed r ev =
      if-Proposed (str_eq r "suspicious-cmdline") _ _
        (any_param-Proposed _ (
          kills (get "pid" (fields_of (get "process" ev)))
            (get "name" (fields_of (get "process" ev)))))
        (if-Proposed (str_eq r "rare-outbound-port") _ _
          (block_address-Proposed (py.str (or_value (get "dst_ip" ev) (text ""))))
          (if-Proposed (str_eq r "persistence-change") _ _
            (remove_path-Proposed (py.str (or_value (get "path" ev) (text ""))))
            (if-Proposed (str_eq r "brute-force-auth") _ _
              (block_all-Proposed (take 5 (list_of (get "src_ips" ev))))
              (if-Proposed (str_eq r "known-c2-connection") _ _ matched
                (if-Proposed (str_eq r "known-malicious-connection") _ _ matched tt)))))
    where
      matched : All Proposed (block_matched py ev)
      matched = block_address-Proposed _

  pub propose_actions-Proposed : (a : Alert) → All Proposed (propose_actions py a)
  unfolding propose_actions
  propose_actions-Proposed a =
      keep-Proposed is_allowed (candidates py (or_else a.rule_id "") (or_else a.evidence end))
        (candidates-Proposed (or_else a.rule_id "") (or_else a.evidence end))
